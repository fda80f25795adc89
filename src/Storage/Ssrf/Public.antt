-- ===== src/Storage/Ssrf/Public.antt =====
-- app/storage/ssrf.py: what is fetched.
use deal_truth_api.Prelude.{
  ℕ, suc, zero, ◌+◌, ◌≡◌, ◌≢◌, ◌≤◌, ◌<◌, refl, false, Option, none, some, List, [], ◌∷◌, Text,
  codes, All, length, lower, same_text, same_text→eq, Bool-cases, inl, inr, arith, ltb, leb, ◌==◌,
  if_elim,
}
use deal_truth_api.Pipeline.Session.{Result, ok, err}
use deal_truth_api.Storage.Ssrf.{
  Ip, is_blocked, Net, Response, is_blocked_host, or_empty, or_443, blocked_literal, check_info,
  check_infos, resolve, check_resolved, check_host, validate_public_https_url, Source, Fetched,
  is_redirect, accept, located, answered, round, fetch_from, fetch_https_source,
}

module _ (net : Net) where
  -- An address that parses and that is none of the blocked ones.
  abbrev pub IsPublic : Text → Type 0
  IsPublic ip = (addr : Ip) × ((net.ip_address ip ≡ some addr) × (is_blocked addr ≡ false))

  -- The address is HTTPS, and its host, which is neither empty nor blocked by name, resolved to
  -- addresses, at least one, that are all public.
  pub record PublicUrl (rounds : ℕ) (url : Text) : Type 0 where
    pub https : lower (net.urlparse url).scheme ≡ codes "https"
    pub host : Text
    pub host_of : host ≡ lower (or_empty (net.urlparse url).hostname)
    pub allowed : is_blocked_host host ≡ false
    pub port : ℕ
    pub infos : List Text
    pub resolved : net.getaddrinfo rounds host port ≡ some infos
    pub some_info : infos ≢ []
    pub all_public : All IsPublic infos

  check_info-passed :
      (o : Option Ip) (rest : Result {0} Unit) (u : Unit {0})
      → check_info o rest ≡ ok u
      → ((addr : Ip) × ((o ≡ some addr) × (is_blocked addr ≡ false))) × (rest ≡ ok u)
  unfolding check_info
  check_info-passed none rest u h = absurd (cc h)
  check_info-passed (some addr) rest u h = elim (Bool-cases (is_blocked addr)) [
    | inl b ↦ absurd (cc (rw b at h))
    | inr b ↦ ((addr, (refl, b)), rw b at h)
  ]

  check_infos-IsPublic :
      (infos : List Text) (u : Unit {0}) → check_infos net infos ≡ ok u → All IsPublic infos
  unfolding check_infos
  check_infos-IsPublic [] u h = tt
  check_infos-IsPublic (ip ∷ infos) u h =
      let (fine, more) = check_info-passed (net.ip_address ip) (check_infos net infos) u h in
      (fine, check_infos-IsPublic infos u more)

  resolved-IsPublic :
      (o : Option (List Text)) (u : Unit {0})
      → check_resolved net o ≡ ok u
      → (infos : List Text) × ((o ≡ some infos) × ((infos ≢ []) × All IsPublic infos))
  unfolding check_resolved
  resolved-IsPublic none u h = absurd (cc h)
  resolved-IsPublic (some []) u h = absurd (cc h)
  resolved-IsPublic (some (ip ∷ infos)) u h =
      (ip ∷ infos, (refl, ((λ e. cc e), check_infos-IsPublic (ip ∷ infos) u h)))

  resolve-passed :
      (rounds : ℕ) (host : Text) (port : Result (Option ℕ)) (u : Unit {0})
      → resolve net rounds host port ≡ ok u
      → (p : ℕ) × (check_resolved net (net.getaddrinfo rounds host p) ≡ ok u)
  unfolding resolve
  resolve-passed rounds host (err e) u h = absurd (cc h)
  resolve-passed rounds host (ok port) u h = (or_443 port, h)

  check_host-passed :
      (rounds : ℕ) (host : Text) (port : Result (Option ℕ)) (u : Unit {0})
      → check_host net rounds host port ≡ ok u
      → (is_blocked_host host ≡ false) × (resolve net rounds host port ≡ ok u)
  unfolding check_host
  check_host-passed rounds host port u h = elim (Bool-cases (same_text host [])) [
    | inl a ↦ absurd (cc (rw a at h))
    | inr a ↦ elim (Bool-cases (is_blocked_host host)) [
      | inl b ↦ absurd (cc (rw (a, b) at h))
      | inr b ↦ elim (Bool-cases (blocked_literal (net.ip_address host))) [
        | inl c ↦ absurd (cc (rw (a, b, c) at h))
        | inr c ↦ (b, rw (a, b, c) at h)
      ]
    ]
  ]

  validated-PublicUrl :
      (rounds : ℕ) (url : Text) (u : Unit {0})
      → validate_public_https_url net rounds url ≡ ok u
      → PublicUrl rounds url
  unfolding validate_public_https_url
  validated-PublicUrl rounds url u h =
      let parsed = net.urlparse url in
      let host = lower (or_empty parsed.hostname) in
      elim (Bool-cases (same_text (lower parsed.scheme) (codes "https"))) [
        | inr s ↦ absurd (cc (rw s at h))
        | inl s ↦
            let (allowed, passed) = check_host-passed rounds host parsed.port u (rw s at h) in
            let (port, found) = resolve-passed rounds host parsed.port u passed in
            let (infos, (resolved, (some_info, all_public))) =
              resolved-IsPublic (net.getaddrinfo rounds host port) u found in
            record {
              https = same_text→eq (lower parsed.scheme) (codes "https") s;
              host = host;
              host_of = refl;
              allowed = allowed;
              port = port;
              infos = infos;
              resolved = resolved;
              some_info = some_info;
              all_public = all_public;
            }
      ]

  -- What a fetch returns is not empty and within the limit.
  pub Kept : ℕ → Result Source → Type 0
  Kept max_audio_bytes (err e) = Unit
  Kept max_audio_bytes (ok (body, names)) = (0 < length body) × (length body ≤ max_audio_bytes)

  -- The fetched addresses, of which each was found public in a round of its own, just before it was
  -- fetched: the rounds that are left count down.
  pub InRounds : ℕ → List Text → Type 0
  InRounds rounds [] = Unit
  InRounds zero (url ∷ urls) = ⊥
  InRounds (suc rounds) (url ∷ urls) = PublicUrl rounds url × InRounds rounds urls

  in_no_round : (rounds : ℕ) → InRounds rounds []
  unfolding InRounds
  in_no_round rounds = tt

  accept-Kept : (m : ℕ) (url : Text) (r : Response) → Kept m (accept net m url r)
  unfolding accept Kept
  accept-Kept m url r = elim (Bool-cases (leb 400 r.status_code)) [
    | inl a ↦ rw a tt
    | inr a ↦ elim (Bool-cases (length r.body == 0)) [
      | inl b ↦ rw (a, b) tt
      | inr b ↦ elim (Bool-cases (ltb m (length r.body))) [
        | inl c ↦ rw (a, b, c) tt
        | inr c ↦ rw (a, b, c) (ground arith, ground arith)
      ]
    ]
  ]

  abbrev Sound : ℕ → ℕ → Fetched → Type 0
  Sound m rounds f = Kept m f.0 × InRounds rounds f.1

  located-Sound :
      (m rounds : ℕ) (url : Text) (o : Option Text) (again : Text → Fetched)
      → PublicUrl rounds url
      → ((next : Text) → Sound m rounds (again next))
      → Sound m (suc rounds) (located net url o again)
  unfolding Kept InRounds
  located-Sound m rounds url none again p k = (tt, (p, in_no_round rounds))
  located-Sound m rounds url (some []) again p k = (tt, (p, in_no_round rounds))
  located-Sound m rounds url (some (c ∷ s)) again p k =
      let rest = k (net.urljoin url (c ∷ s)) in (rest.0, (p, rest.1))

  answered-Sound :
      (m rounds : ℕ) (url : Text) (o : Result Response) (again : Text → Fetched)
      → PublicUrl rounds url
      → ((next : Text) → Sound m rounds (again next))
      → Sound m (suc rounds) (answered net m url o again)
  unfolding answered Kept InRounds
  answered-Sound m rounds url (err e) again p k = (tt, (p, in_no_round rounds))
  answered-Sound m rounds url (ok r) again p k =
      if_elim (Sound m (suc rounds)) (is_redirect r.status_code)
        (located-Sound m rounds url r.location again p k)
        (accept-Kept m url r, (p, in_no_round rounds))

  round-Sound :
      (m rounds : ℕ) (url : Text) (v : Result {0} Unit) (again : Text → Fetched)
      → validate_public_https_url net rounds url ≡ v
      → ((next : Text) → Sound m rounds (again next))
      → Sound m (suc rounds) (round net m rounds url v again)
  unfolding round Kept InRounds
  round-Sound m rounds url (err e) again h k = (tt, tt)
  round-Sound m rounds url (ok u) again h k =
      answered-Sound m rounds url (net.get rounds url) again (validated-PublicUrl rounds url u h) k

  fetch_from-Sound : (m rounds : ℕ) (url : Text) → Sound m rounds (fetch_from net m rounds url)
  unfolding fetch_from Kept InRounds
  fetch_from-Sound m zero url = (tt, tt)
  fetch_from-Sound m (suc rounds) url =
      round-Sound m rounds url (validate_public_https_url net rounds url) (fetch_from net m rounds)
        refl (fetch_from-Sound m rounds)

  InRounds-length : (rounds : ℕ) (urls : List Text) → InRounds rounds urls → length urls ≤ rounds
  unfolding InRounds
  InRounds-length rounds [] h = omega arith
  InRounds-length zero (url ∷ urls) h = absurd h
  InRounds-length (suc rounds) (url ∷ urls) h = omega (arith, InRounds-length rounds urls h.1)

  -- Whatever the servers redirect to, a fetch ends after at most one address more than the redirects
  -- that are allowed; each address that it fetches, the first and each that it was redirected to, is
  -- HTTPS with a host that, looked up just before, has only public addresses; and what it returns is
  -- not empty and within the limit.
  pub fetch_https_source-InRounds :
      (max_redirects max_audio_bytes : ℕ) (url : Text)
      → (let f = fetch_https_source net max_redirects max_audio_bytes url in
          InRounds (max_redirects + 1) f.1
          × (length f.1 ≤ max_redirects + 1)
          × Kept max_audio_bytes f.0)
  unfolding fetch_https_source
  fetch_https_source-InRounds max_redirects max_audio_bytes url =
      let (kept, rounds) = fetch_from-Sound max_audio_bytes (max_redirects + 1) url in
      (rounds, InRounds-length (max_redirects + 1) _ rounds, kept)
