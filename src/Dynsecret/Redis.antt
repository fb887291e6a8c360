-- ===== src/Dynsecret/Redis.antt =====
-- internal/dynsecret/redis.go, over the client library.
pub mod Commands
use kryptic_k8s_operator.Base.{
  ℕ, Bool, true, false, ◌||◌, Option, none, some, List, [], ◌∷◌, ◌++◌, Text, text, ◌==◌, text_eq,
  if◌then◌else◌,
}
use kryptic_k8s_operator.Strings.{trim_space, split}
use kryptic_k8s_operator.Strings.Fields.{fields}
use kryptic_k8s_operator.Errors.{wrap, Step, ok, err, ◌>>◌, return}
use kryptic_k8s_operator.Dynsecret.Provider.{Minted}
use kryptic_k8s_operator.Dynsecret.Templates.{
  Layout, ProviderConfig, Work, render_statements, statement_vars,
}
use kryptic_k8s_operator.Dynsecret.Sql.{deferred, minted_by}
use kryptic_k8s_operator.Dynsecret.Sql.Dsn.{skips_verify, host_port}

-- `tls.Config`, whose minimum version is TLS 1.2, by `InsecureSkipVerify`.
pub record TlsConfig : Type 0 where
  pub insecure_skip_verify : Bool

-- The fields of `redis.Options` that the code sets.
pub record RedisOptions : Type 0 where
  pub addr : Text
  pub username : Text
  pub password : Text
  pub tls_config : Option TlsConfig

-- The client, and what it does with the words of a command.
pub record RedisLibrary (State : Type 0) : Type 1 where
  pub Conn : Type 0
  pub new_client : RedisOptions → Conn
  pub send_command : Conn → List Text → Step State (Unit {0})
  pub close_client : Conn → State → State

-- `opts` of `redisClient`
unfoldable pub redis_options : ProviderConfig → RedisOptions
unfolding host_port
redis_options cfg = record {
  addr = host_port 6379 cfg;
  username = cfg.username;
  password = cfg.password;
  tls_config =
      if cfg.tls || cfg.ssl
      then some (record { insecure_skip_verify = skips_verify cfg.ssl_verify })
      else none;
}

module _ {State : Type 0} (R : RedisLibrary State) where
  -- The loop of `redisDo` over the lines.
  unfoldable pub redis_lines : R.Conn → List Text → Step State (Unit {0})
  redis_lines client [] s = (ok tt, s)
  redis_lines client (raw ∷ rest) s =
      let line : Text = trim_space raw in
      elim (line == []) [
        | true ↦ redis_lines client rest s
        | false ↦
            let (r, s') = R.send_command client (fields line) s in
            elim r [
              | err e ↦ (err (wrap (line ++ text ": ") e), s')
              | ok done ↦ redis_lines client rest s'
            ]
      ]

  -- `redisDo`
  unfoldable pub redis_do : R.Conn → Text → Step State (Unit {0})
  unfolding redis_lines
  redis_do client script = redis_lines client (split 10 script)

  module _ (layout : Layout) where
    -- What `Mint` and `Revoke` do with a template.
    unfoldable pub redis_run : Work → Text → Step State (Unit {0})
    unfolding redis_do
    redis_run work template =
        let client = R.new_client (redis_options work.config) in
        deferred (R.close_client client) (
          redis_do client
            (render_statements layout.order template (statement_vars layout.format work)))

    -- `redisProvider.Mint`
    unfoldable pub redis_mint : Work → Step State Minted
    redis_mint work = redis_run work work.creation_statement >> return (minted_by work)

    -- `redisProvider.Renew`
    unfoldable pub redis_renew : Work → Step State (Unit {0})
    redis_renew work = return tt

    -- `redisProvider.Revoke`
    unfoldable pub redis_revoke : Work → Step State (Unit {0})
    redis_revoke work = redis_run work work.revocation_statement
