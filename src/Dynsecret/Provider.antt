-- ===== src/Dynsecret/Provider.antt =====
-- The data of internal/dynsecret/apply.go and provider.go, with `Lookup` and `ProviderName`. The
-- providers, the templates, JSON and the clock stand behind `Targets`, which Dispatch fills.
use kryptic_k8s_operator.Base.Dict.{Dict}
use kryptic_k8s_operator.Base.Int.{ℤ, pos, negsuc}
use kryptic_k8s_operator.Base.{
  ℕ, suc, Bool, false, Option, ◌++◌, Text, text, ◌==◌, text_eq, nat_eq, if◌then◌else◌,
}
use kryptic_k8s_operator.Strings.{decimal}
use kryptic_k8s_operator.Errors.{plain, wrap, Step, Result, ok, err}

pub record WorkItem : Type 0 where
  pub lease_id : Text
  pub definition_id : Text
  pub environment_id : Text
  pub key : Text
  pub provider : ℤ
  pub action : ℤ
  pub username_template : Text
  pub creation_statement : Text
  pub revocation_statement : Text
  pub renew_statement : Text
  pub url_template : Text
  pub provider_envelope : Text
  pub identity_name : Text
  pub dynamic_secret_name : Text
  pub expires_at : Text
  pub entity_id : Text

pub record CompleteLease : Type 0 where
  pub lease_id : Text
  pub succeeded : Bool
  pub error : Text
  pub entity_id : Text
  pub minted_envelope : Text
  pub expires_at : Option Text

pub record Minted : Type 0 where
  pub username : Text
  pub password : Text
  pub session_token : Text
  pub access_key_id : Text
  pub url : Text

pub record WorkContext (Config : Type 0) : Type 0 where
  pub config : Config
  pub username : Text
  pub password : Text
  pub creation_statement : Text
  pub revocation_statement : Text
  pub renew_statement : Text
  pub url_template : Text
  pub expires_at : ℕ
  pub entity_id : Text

-- The providers that `Lookup` tells apart.
pub data ProviderKind : Type 0 where
  postgres mysql oracle cassandra redis aws_iam : ProviderKind

-- The databases and clouds behind the providers, with the entropy and the clock. A time that does
-- not parse is 0.
pub record Targets : Type 1 where
  pub State : Type 0
  pub Config : Type 0
  pub decode_config : Text → Result Config
  pub mint : ProviderKind → WorkContext Config → Step State Minted
  pub renew : ProviderKind → WorkContext Config → Step State (Unit {0})
  pub revoke : ProviderKind → WorkContext Config → Step State (Unit {0})
  pub render_username : Text → Text → Text → Text → State → Text × State
  pub render_url : Text → Minted → Config → ℕ → Text
  pub random_string : ℕ → State → Text × State
  pub marshal_minted : Minted → Text
  pub parse_time : Text → ℕ
  pub format_time : ℕ → Text
  pub now : State → ℕ

-- The order in which Go's `range` visits the entries of a map, which its runtime chooses.
abbrev pub Order : Type 0
Order = Dict Text Text → Dict Text Text

-- `%d`
pub integer : ℤ → Text
integer (pos n) = decimal n
integer (negsuc n) = text "-" ++ decimal (suc n)

-- A case of a `switch` on a number.
unfoldable pub is_number : ℤ → ℕ → Bool
is_number (pos n) m = n == m
is_number (negsuc n) m = false

-- `Lookup`
unfoldable pub lookup_provider : ℤ → Result ProviderKind
unfolding is_number
lookup_provider provider =
    if is_number provider 0
    then ok postgres
    else if is_number provider 1
    then ok mysql
    else if is_number provider 2
    then ok oracle
    else if is_number provider 3
    then ok cassandra
    else if is_number provider 4
    then ok redis
    else if is_number provider 5
    then ok aws_iam
    else err (plain (text "unknown dynamic secret provider " ++ integer provider))

-- `ProviderName`
unfoldable pub provider_name : ℤ → Text
unfolding is_number
provider_name provider =
    if is_number provider 0
    then text "postgres"
    else if is_number provider 1
    then text "mysql"
    else if is_number provider 2
    then text "oracle"
    else if is_number provider 3
    then text "cassandra"
    else if is_number provider 4
    then text "redis"
    else if is_number provider 5
    then text "aws-iam"
    else text "dynamic"

-- `ParseProviderConfig`, over `json.Unmarshal`.
unfoldable pub parse_provider_config :
    {Config : Type 0} → (Text → Result Config) → Text → Result Config
parse_provider_config unmarshal plaintext = elim (unmarshal plaintext) [
  | err e ↦ err (wrap (text "provider config is not JSON: ") e)
  | ok config ↦ ok config
]
