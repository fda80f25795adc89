-- ===== src/Ml/Json.antt =====
-- The values of a JSON document, as `response.json()` gives them to app/ml/__init__.py. A number is a whole
-- one, or a fraction in ten-thousandths; the service sends no negative numbers, and none are here.
use deal_truth_api.Prelude.{
  ℕ, Bool, true, false, ltb, Option, none, some, List, [], ◌∷◌, String, str_eq, if◌then◌else◌,
}

mutual
  pub data Json : Type 0 where
    null : Json
    flag : Bool → Json
    integer : ℕ → Json
    fraction : ℕ → Json
    text : String → Json
    array : Items → Json
    object : Fields → Json

  pub data Items : Type 0 where
    end : Items
    item : Json → Items → Items

  pub data Fields : Type 0 where
    empty : Fields
    field : String → Json → Fields → Fields

unfoldable pub list_of : Items → List Json
list_of end = []
list_of (item j rest) = j ∷ list_of rest

unfoldable pub items_of : List Json → Items
items_of [] = end
items_of (j ∷ rest) = item j (items_of rest)

-- `d.get(key)`: an object has a key at most once.
unfoldable pub get : String → Fields → Option Json
get key empty = none
get key (field k j rest) = if str_eq k key then some j else get key rest

abbrev is_empty : String → Bool
is_empty String.[] = true
is_empty (String.◌∷◌ c s) = false

-- `bool(j)`
unfoldable pub truthy : Option Json → Bool
truthy none = false
truthy (some null) = false
truthy (some (flag b)) = b
truthy (some (integer n)) = ltb 0 n
truthy (some (fraction n)) = ltb 0 n
truthy (some (text s)) = if is_empty s then false else true
truthy (some (array end)) = false
truthy (some (array (item j rest))) = true
truthy (some (object empty)) = false
truthy (some (object (field k j rest))) = true

-- `a or b`
abbrev pub or_else : Option Json → Option Json → Option Json
or_else a b = if truthy a then a else b
