-- ===== src/Storage/Ssrf.antt =====
-- app/storage/ssrf.py: the check of a source's address, and the fetch with its redirects.
pub mod Public
use deal_truth_api.Prelude.{
  ℕ, suc, zero, ◌+◌, Bool, false, not, ◌||◌, Option, none, some, List, [], ◌∷◌, reverse, String,
  Text, codes, any, length, ltb, leb, ◌==◌, lower, same_text, starts_with, if◌then◌else◌,
}
use deal_truth_api.Core.Errors.{Exception, named, other, ErrorClass, RequestError, StorageError}
use deal_truth_api.Pipeline.Session.{Result, ok, err}
use deal_truth_api.Storage.Memory.{Bytes}
use deal_truth_api.Storage.Validate.{slash, split_on}

-- The properties of an address of the library `ipaddress` that the program reads.
pub record Flags : Type 0 where
  pub is_private : Bool
  pub is_loopback : Bool
  pub is_link_local : Bool
  pub is_reserved : Bool
  pub is_multicast : Bool
  pub is_unspecified : Bool

-- An address of version 4, or one of version 6 with its `ipv4_mapped`.
pub data Ip : Type 0 where
  v4 : Flags → Ip
  v6 : Flags → Option Flags → Ip

unfoldable pub is_flagged : Flags → Bool
is_flagged a =
    a.is_private || a.is_loopback || a.is_link_local || a.is_reserved || a.is_multicast
    || a.is_unspecified

-- `_is_blocked_ip`, of an address that is parsed.
unfoldable pub is_blocked : Ip → Bool
unfolding is_flagged
is_blocked (v4 a) = is_flagged a
is_blocked (v6 a none) = is_flagged a
is_blocked (v6 a (some mapped)) = is_flagged a || is_flagged mapped

-- What `urlparse` finds; a `port` that is no number of a port raises `ValueError`.
pub record Parsed : Type 0 where
  pub scheme : Text
  pub hostname : Option Text
  pub port : Result (Option ℕ)
  pub path : Text

pub record Response : Type 0 where
  pub status_code : ℕ
  pub location : Option Text
  pub content_type : Option Text
  pub body : Bytes

-- The libraries and the network. `getaddrinfo` and `get` may answer differently each time, and have the
-- number of the rounds that are left; `none` is an `OSError`.
pub record Net : Type 0 where
  pub urlparse : Text → Parsed
  pub urljoin : Text → Text → Text
  pub ip_address : Text → Option Ip
  pub getaddrinfo : ℕ → Text → ℕ → Option (List Text)
  pub get : ℕ → Text → Result Response

abbrev pub invalid_url : String → Exception
invalid_url message = named (ErrorClass.request RequestError.invalid_source_url) message

abbrev pub blocked_hosts : List String
blocked_hosts =
    "localhost" ∷ "localhost.localdomain" ∷ "metadata.google.internal" ∷ "metadata.google.com" ∷ []

-- `host in _BLOCKED_HOSTS or host.endswith(".localhost")`
unfoldable pub is_blocked_host : Text → Bool
is_blocked_host host =
    any (λ (h : String). same_text (codes h) host) blocked_hosts
    || starts_with (reverse (codes ".localhost")) (reverse host)

abbrev pub or_empty : Option Text → Text
or_empty none = []
or_empty (some t) = t

abbrev pub or_443 : Option ℕ → ℕ
or_443 none = 443
or_443 (some zero) = 443
or_443 (some (suc n)) = suc n

abbrev pub blocked_literal : Option Ip → Bool
blocked_literal none = false
blocked_literal (some ip) = is_blocked ip

-- One address of the loop over `infos`: one that does not parse is a `ValueError`.
unfoldable pub check_info : Option Ip → Result {0} Unit → Result {0} Unit
check_info none rest = err (other "ValueError")
check_info (some addr) rest =
    if is_blocked addr
    then err (invalid_url "Source URL resolves to a private or reserved address")
    else rest

-- What `fetch_https_source` returns.
abbrev pub Source : Type 0
Source = Bytes × (Text × Text)

-- `path.rsplit("/", 1)[-1]`
unfoldable pub last_of : Text → List Text → Text
last_of part [] = part
last_of part (next ∷ parts) = last_of next parts

abbrev named_or : Text → Text
named_or [] = codes "source-audio.bin"
named_or (c ∷ s) = c ∷ s

unfoldable pub source_name : Text → Text
unfolding last_of
source_name path = let (part, parts) = split_on slash path in named_or (last_of part parts)

abbrev or_octets : Option Text → Text
or_octets none = codes "application/octet-stream"
or_octets (some t) = t

unfoldable pub is_redirect : ℕ → Bool
is_redirect n = n == 301 || n == 302 || n == 303 || n == 307 || n == 308

-- The result, with the addresses that were fetched, in order.
abbrev pub Fetched : Type 0
Fetched = Result Source × List Text

abbrev pub fetched : Text → Fetched → Fetched
fetched url (r, urls) = (r, url ∷ urls)

module _ (net : Net) where
  unfoldable pub check_infos : List Text → Result {0} Unit
  unfolding check_info
  check_infos [] = ok tt
  check_infos (ip ∷ infos) = check_info (net.ip_address ip) (check_infos infos)

  unfoldable pub check_resolved : Option (List Text) → Result {0} Unit
  unfolding check_infos
  check_resolved none = err (invalid_url "Source URL host could not be resolved")
  check_resolved (some []) = err (invalid_url "Source URL host could not be resolved")
  check_resolved (some (ip ∷ infos)) = check_infos (ip ∷ infos)

  unfoldable pub resolve : ℕ → Text → Result (Option ℕ) → Result {0} Unit
  unfolding check_resolved
  resolve rounds host (err e) = err e
  resolve rounds host (ok port) = check_resolved (net.getaddrinfo rounds host (or_443 port))

  unfoldable pub check_host : ℕ → Text → Result (Option ℕ) → Result {0} Unit
  unfolding resolve
  check_host rounds host port =
      if same_text host []
      then err (invalid_url "Source URL is missing a host")
      else if is_blocked_host host
      then err (invalid_url "Source URL host is not allowed")
      else if blocked_literal (net.ip_address host)
      then err (invalid_url "Source URL host is a private or reserved address")
      else resolve rounds host port

  unfoldable pub validate_public_https_url : ℕ → Text → Result {0} Unit
  unfolding check_host
  validate_public_https_url rounds url =
      let parsed = net.urlparse url in
      if not (same_text (lower parsed.scheme) (codes "https"))
      then err (invalid_url "Only HTTPS source URLs are allowed")
      else check_host rounds (lower (or_empty parsed.hostname)) parsed.port

  -- The end of a round without a redirect.
  unfoldable pub accept : ℕ → Text → Response → Result Source
  unfolding source_name
  accept max_audio_bytes url r =
      if leb 400 r.status_code
      then err (invalid_url "Source URL fetch failed")
      else if length r.body == 0
      then err (invalid_url "Source URL returned an empty body")
      else if ltb max_audio_bytes (length r.body)
      then err (
          named (ErrorClass.storage StorageError.audio_too_large)
            "Fetched audio exceeds maximum allowed size")
      else ok (
        r.body,
        ((split_on b';' (or_octets r.content_type)).0, source_name (net.urlparse url).path),
      )

  abbrev pub located : Text → Option Text → (Text → Fetched) → Fetched
  located url none again = (err (invalid_url "Redirect is missing a Location header"), url ∷ [])
  located url (some []) again =
      (err (invalid_url "Redirect is missing a Location header"), url ∷ [])
  located url (some (c ∷ s)) again = fetched url (again (net.urljoin url (c ∷ s)))

  unfoldable pub answered : ℕ → Text → Result Response → (Text → Fetched) → Fetched
  unfolding accept is_redirect
  answered max_audio_bytes url (err e) again = (err e, url ∷ [])
  answered max_audio_bytes url (ok r) again =
      if is_redirect r.status_code
      then located url r.location again
      else (accept max_audio_bytes url r, url ∷ [])

  -- A round for each number of `range`, with the number of those that are left.
  unfoldable pub round : ℕ → ℕ → Text → Result {0} Unit → (Text → Fetched) → Fetched
  unfolding answered
  round max_audio_bytes rounds url (err e) again = (err e, [])
  round max_audio_bytes rounds url (ok u) again =
      answered max_audio_bytes url (net.get rounds url) again

  unfoldable pub fetch_from : ℕ → ℕ → Text → Fetched
  unfolding round
  fetch_from max_audio_bytes zero url =
      (err (invalid_url "Too many redirects while fetching source URL"), [])
  fetch_from max_audio_bytes (suc rounds) url =
      round max_audio_bytes rounds url (validate_public_https_url rounds url)
        (fetch_from max_audio_bytes rounds)

  -- `fetch_https_source`
  unfoldable pub fetch_https_source : ℕ → ℕ → Text → Fetched
  unfolding fetch_from
  fetch_https_source max_redirects max_audio_bytes url =
      fetch_from max_audio_bytes (max_redirects + 1) url
