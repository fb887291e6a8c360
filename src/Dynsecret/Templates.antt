-- ===== src/Dynsecret/Templates.antt =====
-- internal/dynsecret/provider.go: the configuration of a provider, and the templates of its
-- statements and of the URL. The formats of a time are parameters.
use kryptic_k8s_operator.Base.Int.{ℤ}
use kryptic_k8s_operator.Base.Dict.{Dict}
use kryptic_k8s_operator.Base.{
  ℕ, Bool, Option, List, [], ◌∷◌, ◌++◌, Text, text, ◌==◌, text_eq, if◌then◌else◌,
}
use kryptic_k8s_operator.Strings.{trim_space, split}
use kryptic_k8s_operator.Strings.Find.{replace_all}
use kryptic_k8s_operator.Dynsecret.Provider.{Order, Minted, WorkContext, integer}

pub record ProviderConfig : Type 0 where
  pub host : Text
  pub port : ℤ
  pub username : Text
  pub password : Text
  pub database : Text
  pub ssl : Bool
  pub ca : Text
  pub ssl_verify : Option Bool
  pub hosts : Text
  pub local_dc : Text
  pub keyspace : Text
  pub tls : Bool
  pub auth_method : Text
  pub credential_type : Text
  pub access_key_id : Text
  pub secret_access_key : Text
  pub role_arn : Text
  pub region : Text
  pub duration_seconds : ℤ
  pub policy_document : Text
  pub permission_boundary : Text
  pub iam_user_path : Text

abbrev pub Work : Type 0
Work = WorkContext ProviderConfig

-- What the templates of statements take from outside: the format of an expiry, and the order.
pub record Layout : Type 0 where
  pub format : ℕ → Text
  pub order : Order

-- The loop of `RenderStatements`, over the variables in the order in which they are visited.
unfoldable pub render_each : Text → Dict Text Text → Text
render_each out [] = out
render_each out ((key, value) ∷ vars) =
    render_each
      (replace_all (replace_all out (text "{{" ++ (key ++ text "}}")) value)
        (text "{{ " ++ (key ++ text " }}")) value)
      vars

-- `RenderStatements`
unfoldable pub render_statements : Order → Text → Dict Text Text → Text
unfolding render_each
render_statements order template vars = render_each template (order vars)

-- `firstNonEmpty`
unfoldable pub first_non_empty : List Text → Text
first_non_empty [] = []
first_non_empty (v ∷ values) =
    let rest = first_non_empty values in if trim_space v == [] then rest else v

-- `firstHost`
unfoldable pub first_host : Text → Text
first_host hosts = elim (split b',' hosts) [ [] ↦ [] | part ∷ parts ↦ trim_space part ]

-- `StatementVars`
unfoldable pub statement_vars : (ℕ → Text) → Work → Dict Text Text
statement_vars format work =
    (text "username", work.username)
    ∷ (text "password", work.password)
    ∷ (text "expiration", format work.expires_at)
    ∷ (text "database", first_non_empty (work.config.database ∷ work.config.keyspace ∷ []))
    ∷ (text "keyspace", first_non_empty (work.config.keyspace ∷ work.config.database ∷ []))
    ∷ []

-- `RenderURL`
unfoldable pub render_url : Layout → Text → Minted → ProviderConfig → ℕ → Text
render_url layout template minted cfg expires =
    if trim_space template == []
    then []
    else render_statements layout.order template (
        (text "username", minted.username)
        ∷ (text "password", minted.password)
        ∷ (text "host", first_non_empty (cfg.host ∷ first_host cfg.hosts ∷ []))
        ∷ (text "port", integer cfg.port)
        ∷ (text "database", first_non_empty (cfg.database ∷ cfg.keyspace ∷ []))
        ∷ (text "accessKeyId", minted.access_key_id)
        ∷ (text "sessionToken", minted.session_token)
        ∷ (text "expiration", layout.format expires)
        ∷ [])
