-- ===== src/Dynsecret/Cassandra.antt =====
-- internal/dynsecret/cassandra.go, over the driver library.
use kryptic_k8s_operator.Base.Int.{ℤ, pos}
use kryptic_k8s_operator.Base.{
  ℕ, suc, Bool, ◌||◌, ◌&&◌, not, Option, none, some, List, [], ◌∷◌, map, Text, ◌==◌, text_eq,
  if◌then◌else◌,
}
use kryptic_k8s_operator.Strings.{trim_space, split}
use kryptic_k8s_operator.Errors.{Step, ok, err, ◌>>=◌, ◌>>◌, return}
use kryptic_k8s_operator.Dynsecret.Provider.{Minted}
use kryptic_k8s_operator.Dynsecret.Templates.{
  Layout, ProviderConfig, Work, render_statements, statement_vars,
}
use kryptic_k8s_operator.Dynsecret.Sql.{
  TempFiles, write_temp_ca, split_statements, deferred, minted_by,
}
use kryptic_k8s_operator.Dynsecret.Sql.Dsn.{skips_verify}

-- `gocql.SslOptions`
pub record SslOptions : Type 0 where
  pub enable_host_verification : Bool
  pub ca_path : Text

-- The fields of `gocql.ClusterConfig` that the code sets; none and the empty text leave the
-- library's own.
pub record ClusterConfig : Type 0 where
  pub hosts : List Text
  pub port : Option ℕ
  pub local_dc : Option Text
  pub authenticator : Option (Text × Text)
  pub keyspace : Text
  pub ssl_opts : Option SslOptions

pub record CqlLibrary (State : Type 0) : Type 1 where
  pub Session : Type 0
  pub create_session : ClusterConfig → Step State Session
  pub exec_query : Session → Text → Step State (Unit {0})
  pub close_session : Session → State → State

-- `hosts` of `cassandraSession`
unfoldable pub cluster_hosts : ProviderConfig → List Text
cluster_hosts cfg = elim (split b',' cfg.hosts) [
  | [] ↦ []
  | only ∷ [] ↦
      if trim_space only == [] && not (cfg.host == [])
      then trim_space cfg.host ∷ []
      else trim_space only ∷ []
  | first ∷ second ∷ rest ↦ map trim_space (first ∷ second ∷ rest)
]

-- A port above 0.
positive : ℤ → Option ℕ
positive (pos (suc n)) = some (suc n)
positive _ = none

given : Text → Option Text
given value = if value == [] then none else some value

-- The cluster before its TLS.
unfoldable pub plain_cluster : ProviderConfig → ClusterConfig
unfolding positive given
plain_cluster cfg = record {
  hosts = cluster_hosts cfg;
  port = positive cfg.port;
  local_dc = given cfg.local_dc;
  authenticator = if cfg.username == [] then none else some (cfg.username, cfg.password);
  keyspace = if cfg.keyspace == [] then cfg.database else cfg.keyspace;
  ssl_opts = none;
}

-- `opts` of `cassandraSession`
unfoldable pub ssl_opts_of : ProviderConfig → Text → SslOptions
ssl_opts_of cfg path = record {
  enable_host_verification = not (skips_verify cfg.ssl_verify);
  ca_path = path;
}

-- The cluster with its TLS, and the cleanup.
unfoldable pub cluster_config :
    {State : Type 0}
    → TempFiles State
    → ProviderConfig
    → Step State (ClusterConfig × (State → State))
cluster_config F cfg s =
    if not (cfg.tls || cfg.ssl)
    then (ok (plain_cluster cfg, λ t. t), s)
    else if trim_space cfg.ca == []
    then (ok (record (plain_cluster cfg) { ssl_opts = some (ssl_opts_of cfg []) }, λ t. t), s)
    else (let (r, s') = write_temp_ca F cfg.ca s in
        elim r [
          | err e ↦ (err e, s')
          | ok (path, cleanup) ↦ (
            ok (record (plain_cluster cfg) { ssl_opts = some (ssl_opts_of cfg path) }, cleanup),
            s',
          )
        ])

module _ {State : Type 0} (F : TempFiles State) (Q : CqlLibrary State) (layout : Layout) where
  -- The end of `cassandraSession`: the session, or the cleanup and the error.
  unfoldable pub open_session :
      ClusterConfig → (State → State) → Step State (Q.Session × (State → State))
  open_session cluster cleanup s =
      let (r, s') = Q.create_session cluster s in
      elim r [ err e ↦ (err e, cleanup s') | ok session ↦ (ok (session, cleanup), s') ]

  -- `cassandraSession`: the session and the cleanup.
  unfoldable pub cassandra_session : ProviderConfig → Step State (Q.Session × (State → State))
  unfolding open_session
  cassandra_session cfg =
      cluster_config F cfg >>= λ (cluster, cleanup). open_session cluster cleanup

  -- The loop of `cqlExec`.
  unfoldable pub cql_all : Q.Session → List Text → Step State (Unit {0})
  cql_all session [] s = (ok tt, s)
  cql_all session (stmt ∷ rest) s =
      let (r, s') = Q.exec_query session stmt s in
      elim r [ err e ↦ (err e, s') | ok done ↦ cql_all session rest s' ]

  -- `cqlExec`
  unfoldable pub cql_exec : Q.Session → Text → Step State (Unit {0})
  unfolding cql_all
  cql_exec session script = cql_all session (split_statements script)

  -- What `Mint` and `Revoke` do with a template.
  unfoldable pub cassandra_run : Work → Text → Step State (Unit {0})
  unfolding cassandra_session
  cassandra_run work template = cassandra_session work.config >>= λ (session, cleanup).
      deferred cleanup (
        deferred (Q.close_session session) (
          cql_exec session
            (render_statements layout.order template (statement_vars layout.format work))))

  -- `cassandraProvider.Mint`
  unfoldable pub cassandra_mint : Work → Step State Minted
  cassandra_mint work = cassandra_run work work.creation_statement >> return (minted_by work)

  -- `cassandraProvider.Renew`
  unfoldable pub cassandra_renew : Work → Step State (Unit {0})
  cassandra_renew work = return tt

  -- `cassandraProvider.Revoke`
  unfoldable pub cassandra_revoke : Work → Step State (Unit {0})
  cassandra_revoke work = cassandra_run work work.revocation_statement
