-- ===== src/Controller/ApiUrl/Accepted.antt =====
-- Which base URLs `Validate` accepts, described apart from its order of checks.
use kryptic_k8s_operator.Base.{
  ◌≡◌, ◌≢◌, ◌↔◌, ◌⊎◌, inl, inr, Bool, true, List, [], ◌∷◌, Text, text, arith, contains, text_eq,
  Bool-cases, List-cases,
}
use kryptic_k8s_operator.Strings.Fold.{equal_fold}
use kryptic_k8s_operator.Errors.{Result-cases, ok}
use kryptic_k8s_operator.Krypticapi.{default_base_url}
use kryptic_k8s_operator.Controller.ApiUrl.{
  Url, UrlLibrary, ApiUrlPolicy, host_allowed, allowed_hosts_of, scheme_error, check_host,
  check_url, validate,
}

module _ (simple_fold : Text → Text → Bool) where
  host_allowed-listed :
      (host : Text) (hosts : List Text)
      → host_allowed simple_fold host hosts ≡ true
      → (h : Text) × (contains hosts h ≡ true) × (equal_fold simple_fold host h ≡ true)
  unfolding host_allowed
  host_allowed-listed host [] e = cc
  host_allowed-listed host (h ∷ hosts) e = elim (Bool-cases (equal_fold simple_fold host h)) [
    | inl same ↦ (h, ground arith, same)
    | inr other ↦
        let (h', listed, same) = host_allowed-listed host hosts (ground arith) in
        (h', ground arith, same)
  ]

  host_allowed_of-contains :
      (host : Text) (hosts : List Text) (h : Text)
      → contains hosts h ≡ true
      → equal_fold simple_fold host h ≡ true
      → host_allowed simple_fold host hosts ≡ true
  unfolding host_allowed
  host_allowed_of-contains host [] h listed same = cc
  host_allowed_of-contains host (h' ∷ hosts) h listed same =
      ground (arith, host_allowed_of-contains host hosts h)

module _ (U : UrlLibrary) (p : ApiUrlPolicy) where
  -- The hosts of the allowlist; if it is empty, the host of the default URL alone.
  abbrev pub AllowedHost : Text → Type 0
  AllowedHost host =
      (hosts : List Text) × (((p.allowed_hosts ≢ []) × (hosts ≡ p.allowed_hosts))
        ⊎ ((p.allowed_hosts ≡ [])
            × (default_url : Url) × (U.parse default_base_url ≡ ok default_url)
            × (hosts ≡ default_url.host ∷ [])))
      × (h : Text) × (contains hosts h ≡ true)
      × (equal_fold U.simple_fold host h ≡ true)

  -- A URL that parses, with a host that is allowed up to Unicode's folding of case, over https, or over http if the
  -- operator has allowed that.
  abbrev pub Accepted : Text → Type 0
  Accepted raw =
      (u : Url) × (U.parse raw ≡ ok u)
      × (u.host ≢ [])
      × ((u.scheme ≡ text "https") ⊎ ((u.scheme ≡ text "http") × (p.allow_insecure ≡ true)))
      × AllowedHost u.host

  allowed_hosts_of-ok :
      (hosts : List Text)
      → allowed_hosts_of U p ≡ ok hosts
      → ((p.allowed_hosts ≢ []) × (hosts ≡ p.allowed_hosts))
        ⊎ ((p.allowed_hosts ≡ [])
            × (default_url : Url) × (U.parse default_base_url ≡ ok default_url)
            × (hosts ≡ default_url.host ∷ []))
  unfolding allowed_hosts_of
  allowed_hosts_of-ok hosts e = elim (Result-cases (U.parse default_base_url)) [
    | inl (e', broken) ↦ inl (ground arith)
    | inr (u, parsed) ↦ elim (List-cases p.allowed_hosts) [
      | inl empty ↦ inr (empty, u, parsed, ground arith)
      | inr listed ↦ inl (listed, ground arith)
    ]
  ]

  check_host-AllowedHost : (host : Text) → check_host U p host ≡ ok tt → AllowedHost host
  unfolding check_host
  check_host-AllowedHost host e = elim (Result-cases (allowed_hosts_of U p)) [
    | inl (e', broken) ↦ ground arith
    | inr (hosts, found) ↦
        let (h, listed, same) = host_allowed-listed U.simple_fold host hosts (ground arith) in
        (hosts, allowed_hosts_of-ok hosts found, h, listed, same)
  ]

  AllowedHost-check_host : (host : Text) → AllowedHost host → check_host U p host ≡ ok tt
  unfolding check_host allowed_hosts_of
  AllowedHost-check_host host (hosts, which, h, listed, same) =
      ground (arith, host_allowed_of-contains U.simple_fold host hosts h listed same)

  validate-Accepted : (raw : Text) → validate U p raw ≡ ok tt → Accepted raw
  unfolding validate check_url scheme_error
  validate-Accepted raw e = elim (Result-cases (U.parse raw)) [
    | inl (e', broken) ↦ ground arith
    | inr (u, parsed) ↦
        (u, parsed, ground arith, ground arith, check_host-AllowedHost u.host (ground arith))
  ]

  Accepted-validate : (raw : Text) → Accepted raw → validate U p raw ≡ ok tt
  unfolding validate check_url scheme_error
  Accepted-validate raw (u, parsed, hosted, scheme, allowed) =
      ground (arith, AllowedHost-check_host u.host allowed)

  -- `Validate` accepts exactly those.
  pub validate_iff : (raw : Text) → (validate U p raw ≡ ok tt) ↔ Accepted raw
  validate_iff raw = (validate-Accepted raw, Accepted-validate raw)
