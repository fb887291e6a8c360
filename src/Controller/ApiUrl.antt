-- ===== src/Controller/ApiUrl.antt =====
-- internal/controller/api_url_policy.go, over `url.Parse`, `%q` and Unicode's table of folds.
pub mod Accepted
use kryptic_k8s_operator.Base.{
  Bool, false, ◌||◌, Option, none, some, List, [], ◌∷◌, ◌++◌, Text, text, ◌==◌, text_eq,
  if◌then◌else◌,
}
use kryptic_k8s_operator.Strings.Fold.{equal_fold}
use kryptic_k8s_operator.Errors.{plain, Result, ok, err}
use kryptic_k8s_operator.Krypticapi.{default_base_url}
use kryptic_k8s_operator.Controller.Cluster.{split_list}

-- The fields of `url.URL` that the policy reads.
pub record Url : Type 0 where
  pub scheme : Text
  pub host : Text

-- `url.Parse`, with its error, `%q`, and Unicode's table of the runes that fold together.
pub record UrlLibrary : Type 0 where
  pub parse : Text → Result Url
  pub quote : Text → Text
  pub simple_fold : Text → Text → Bool

pub record ApiUrlPolicy : Type 0 where
  pub allow_insecure : Bool
  pub allowed_hosts : List Text

-- `APIURLPolicyFromEnv`
unfoldable pub api_url_policy_from_env : (Text → Text) → ApiUrlPolicy
api_url_policy_from_env getenv = record {
  allow_insecure = getenv (text "KRYPTIC_ALLOW_INSECURE_API_URL") == text "true";
  allowed_hosts = split_list (getenv (text "KRYPTIC_API_URL_ALLOWLIST"));
}

-- The loop over the allowed hosts.
unfoldable pub host_allowed : (Text → Text → Bool) → Text → List Text → Bool
host_allowed simple_fold host [] = false
host_allowed simple_fold host (allowed ∷ rest) =
    equal_fold simple_fold host allowed || host_allowed simple_fold host rest

module _ (L : UrlLibrary) where
  -- `allowed`: the list of the policy, or the default's host.
  unfoldable pub allowed_hosts_of : ApiUrlPolicy → Result (List Text)
  allowed_hosts_of p = elim p.allowed_hosts [
    | [] ↦ elim (L.parse default_base_url) [
      | ok default_url ↦ ok (default_url.host ∷ [])
      | err e ↦ err e
    ]
    | host ∷ rest ↦ ok (host ∷ rest)
  ]

  -- The switch on the scheme: the message, or none where the scheme is accepted.
  unfoldable pub scheme_error : ApiUrlPolicy → Text → Text → Option Text
  scheme_error p raw scheme =
      if scheme == text "https"
      then none
      else if scheme == text "http"
      then (if p.allow_insecure
          then none
          else some (
              text "apiUrl "
              ++ (L.quote raw
                  ++ text
                      " must use https (set KRYPTIC_ALLOW_INSECURE_API_URL=true on the operator to allow http for development)")))
      else some (text "apiUrl " ++ (L.quote raw ++ text " must use https"))

  unfoldable pub check_host : ApiUrlPolicy → Text → Result (Unit {0})
  unfolding allowed_hosts_of
  check_host p host = elim (allowed_hosts_of p) [
    | err e ↦ err e
    | ok allowed ↦
        if host_allowed L.simple_fold host allowed
        then ok tt
        else err (
            plain (
              text "apiUrl host "
              ++ (L.quote host
                  ++ text " is not allowed: add it to KRYPTIC_API_URL_ALLOWLIST on the operator")))
  ]

  check_url : ApiUrlPolicy → Text → Url → Result (Unit {0})
  unfolding scheme_error check_host
  check_url p raw parsed =
      if parsed.host == []
      then err (plain (text "invalid apiUrl " ++ L.quote raw))
      else elim (scheme_error p raw parsed.scheme) [
        | some message ↦ err (plain message)
        | none ↦ check_host p parsed.host
      ]

  -- `APIURLPolicy.Validate`
  unfoldable pub validate : ApiUrlPolicy → Text → Result (Unit {0})
  unfolding check_url
  validate p raw = elim (L.parse raw) [
    | err _ ↦ err (plain (text "invalid apiUrl " ++ L.quote raw))
    | ok parsed ↦ check_url p raw parsed
  ]
