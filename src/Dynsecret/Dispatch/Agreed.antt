-- ===== src/Dynsecret/Dispatch/Agreed.antt =====
-- How the drivers read `ssl`, `tls` and `sslVerify`.
use kryptic_k8s_operator.Base.{
  ◌≡◌, refl, true, ◌||◌, not, Option, none, some, [], Text, ◌==◌, text_eq, arith, if◌then◌else◌,
  Bool-cases, inl, inr,
}
use kryptic_k8s_operator.Strings.{trim_space}
use kryptic_k8s_operator.Errors.{ok, Result-cases}
use kryptic_k8s_operator.Dynsecret.Templates.{ProviderConfig}
use kryptic_k8s_operator.Dynsecret.Sql.{TempFiles, write_temp_ca}
use kryptic_k8s_operator.Dynsecret.Sql.Dsn.{skips_verify, mysql_dsn, oracle_options}
use kryptic_k8s_operator.Dynsecret.Sql.Security.{
  Security, unencrypted, unverified, verified, asked, security-cases, mysql_security,
  oracle_security, mysql_dsn-security, oracle_options-security,
}
use kryptic_k8s_operator.Dynsecret.Sql.Parameters.{tls_parameter}
use kryptic_k8s_operator.Strings.Count.{count}
use kryptic_k8s_operator.Dynsecret.Redis.{TlsConfig, redis_options}
use kryptic_k8s_operator.Dynsecret.Cassandra.{
  SslOptions, ClusterConfig, plain_cluster, ssl_opts_of, cluster_config,
}

-- How the libraries of Redis and Cassandra read what they are given.
abbrev pub redis_security : Option TlsConfig → Security
redis_security none = unencrypted
redis_security (some config) = if config.insecure_skip_verify then unverified else verified

abbrev pub cassandra_security : Option SslOptions → Security
cassandra_security none = unencrypted
cassandra_security (some options) =
    if options.enable_host_verification then verified else unverified

redis_options-security :
    (cfg : ProviderConfig)
    → redis_security (redis_options cfg).tls_config ≡ asked (cfg.tls || cfg.ssl) cfg.ssl_verify
unfolding redis_options skips_verify
redis_options-security cfg =
    security-cases
      (λ b o.
        redis_security (if b then some (record { insecure_skip_verify = skips_verify o }) else none)
        ≡ asked b o)
      refl refl refl (λ o. refl) (cfg.tls || cfg.ssl) cfg.ssl_verify

-- With TLS, whichever path the bundle has.
ssl_opts-security :
    (cfg : ProviderConfig) (path : Text)
    → cassandra_security (some (ssl_opts_of cfg path)) ≡ asked true cfg.ssl_verify
unfolding ssl_opts_of skips_verify
ssl_opts-security cfg path =
    security-cases
      (λ b o.
        cassandra_security (
          if b
          then some (record { enable_host_verification = not (skips_verify o); ca_path = path })
          else none)
        ≡ asked b o)
      refl refl refl (λ o. refl) true cfg.ssl_verify

module _ {State : Type 0} (F : TempFiles State) (cfg : ProviderConfig) (s : State) where
  cluster_config-security :
      (cluster : ClusterConfig) (cleanup : State → State)
      → (cluster_config F cfg s).0 ≡ ok (cluster, cleanup)
      → cassandra_security cluster.ssl_opts ≡ asked (cfg.tls || cfg.ssl) cfg.ssl_verify
  unfolding cluster_config plain_cluster
  cluster_config-security cluster cleanup done = elim (Bool-cases (cfg.tls || cfg.ssl)) [
    | inr off ↦ ground arith
    | inl on ↦ elim (Bool-cases (trim_space cfg.ca == [])) [
      | inl blank ↦ rw on (ground (arith, ssl_opts-security cfg []))
      | inr bundle ↦ elim (Result-cases (write_temp_ca F cfg.ca s).0) [
        | inl (e, failed) ↦ ground arith
        | inr ((path, clean), made) ↦ rw on (ground (arith, ssl_opts-security cfg path))
      ]
    ]
  ]

  -- Where the database has neither `/` nor `?`, the DSN of MySQL, as its driver takes it apart, and
  -- the options of Oracle, Redis and Cassandra mean to their libraries the same reading of the
  -- configuration: no TLS where it is off, else TLS with verification, unless `sslVerify` is false.
  -- Redis and Cassandra turn it on by `tls` as well; Cassandra has options where its bundle is
  -- written.
  pub drivers_agree :
      (cluster : ClusterConfig) (cleanup : State → State)
      → (cluster_config F cfg s).0 ≡ ok (cluster, cleanup)
      → count b'/' cfg.database ≡ 0
      → count b'?' cfg.database ≡ 0
      → (mysql_security (tls_parameter (mysql_dsn cfg)) ≡ asked cfg.ssl cfg.ssl_verify)
        × (oracle_security (oracle_options cfg) ≡ asked cfg.ssl cfg.ssl_verify)
        × (redis_security (redis_options cfg).tls_config
            ≡ asked (cfg.tls || cfg.ssl) cfg.ssl_verify)
        × (cassandra_security cluster.ssl_opts ≡ asked (cfg.tls || cfg.ssl) cfg.ssl_verify)
  drivers_agree cluster cleanup done slashes marks = (
    mysql_dsn-security cfg slashes marks,
    oracle_options-security cfg,
    redis_options-security cfg,
    cluster_config-security cluster cleanup done,
  )
