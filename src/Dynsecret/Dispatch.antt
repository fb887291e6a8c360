-- ===== src/Dynsecret/Dispatch.antt =====
-- internal/dynsecret/provider.go: the providers behind `Provider`, and with them what `Apply` uses.
pub mod Files
pub mod Agreed
use kryptic_k8s_operator.Base.{ℕ, ◌/◌, Text}
use kryptic_k8s_operator.Errors.{Step, Result}
use kryptic_k8s_operator.Dynsecret.Provider.{
  Minted, ProviderKind, postgres, mysql, oracle, cassandra, redis, aws_iam, Targets,
}
use kryptic_k8s_operator.Dynsecret.Templates.{Layout, ProviderConfig, Work, render_url}
use kryptic_k8s_operator.Dynsecret.Username.{TextCase, Draw, render_username}
use kryptic_k8s_operator.Dynsecret.Sql.{TempFiles, Databases}
use kryptic_k8s_operator.Dynsecret.Sql.Providers.{
  BuildUrl, postgres_mint, postgres_renew, postgres_revoke, mysql_mint, mysql_renew, mysql_revoke,
  oracle_mint, oracle_renew, oracle_revoke,
}
use kryptic_k8s_operator.Dynsecret.Redis.{RedisLibrary, redis_mint, redis_renew, redis_revoke}
use kryptic_k8s_operator.Dynsecret.Cassandra.{
  CqlLibrary, cassandra_mint, cassandra_renew, cassandra_revoke,
}
use kryptic_k8s_operator.Dynsecret.Awsiam.{Aws, aws_mint, aws_renew, aws_revoke}

-- The operating system, the drivers and the SDK, the entropy, JSON and the clock.
pub record Drivers : Type 1 where
  pub State : Type 0
  pub files : TempFiles State
  pub databases : Databases State
  pub build_url : BuildUrl
  pub redis_library : RedisLibrary State
  pub cql : CqlLibrary State
  pub aws : Aws State
  pub random_string : Draw State
  pub text_case : TextCase
  pub unmarshal_config : Text → Result ProviderConfig
  pub marshal_minted : Minted → Text
  pub parse_time : Text → ℕ
  -- The format of an expiry in statements and the order of Go's `range`, and RFC 3339 in UTC.
  pub layout : Layout
  pub format_time : ℕ → Text
  pub now : State → ℕ

module _ (L : Drivers) where
  -- `Provider.Mint`
  unfoldable pub mint_with : ProviderKind → Work → Step L.State Minted
  mint_with postgres = postgres_mint L.databases L.layout L.files
  mint_with mysql = mysql_mint L.databases L.layout
  mint_with oracle = oracle_mint L.databases L.layout L.build_url
  mint_with cassandra = cassandra_mint L.files L.cql L.layout
  mint_with redis = redis_mint L.redis_library L.layout
  mint_with aws_iam = aws_mint L.aws

  -- `Provider.Renew`
  unfoldable pub renew_with : ProviderKind → Work → Step L.State (Unit {0})
  renew_with postgres = postgres_renew L.databases L.layout L.files
  renew_with mysql = mysql_renew L.databases L.layout
  renew_with oracle = oracle_renew L.databases L.layout L.build_url
  renew_with cassandra = cassandra_renew L.files L.cql L.layout
  renew_with redis = redis_renew L.redis_library L.layout
  renew_with aws_iam = aws_renew L.aws

  -- `Provider.Revoke`
  unfoldable pub revoke_with : ProviderKind → Work → Step L.State (Unit {0})
  revoke_with postgres = postgres_revoke L.databases L.layout L.files
  revoke_with mysql = mysql_revoke L.databases L.layout
  revoke_with oracle = oracle_revoke L.databases L.layout L.build_url
  revoke_with cassandra = cassandra_revoke L.files L.cql L.layout
  revoke_with redis = redis_revoke L.redis_library L.layout
  revoke_with aws_iam = aws_revoke L.aws

  -- What `Apply` uses.
  unfoldable pub targets_of : Targets
  unfolding mint_with renew_with revoke_with
  targets_of = record {
    State = L.State;
    Config = ProviderConfig;
    decode_config = L.unmarshal_config;
    mint = mint_with;
    renew = renew_with;
    revoke = revoke_with;
    render_username = λ template identity name type_name s.
        render_username L.layout.order L.text_case L.random_string (L.now s / 1_000_000_000)
          template identity name type_name s;
    render_url = render_url (record L.layout { format = L.format_time });
    random_string = L.random_string;
    marshal_minted = L.marshal_minted;
    parse_time = L.parse_time;
    format_time = L.format_time;
    now = L.now;
  }
