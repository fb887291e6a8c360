-- ===== src/Dynsecret/Sql/Dsn.antt =====
-- The data source names of internal/dynsecret/sql.go and oracle.go.
use kryptic_k8s_operator.Base.Int.{ℤ, pos}
use kryptic_k8s_operator.Base.Dict.{Dict}
use kryptic_k8s_operator.Base.{
  Bool, false, not, Option, none, some, [], ◌∷◌, ◌++◌, Text, text, ◌==◌, text_eq, if◌then◌else◌, ℕ,
}
use kryptic_k8s_operator.Strings.{trim_space}
use kryptic_k8s_operator.Strings.Escape.{
  user_password, host_part, path_part, query_component, escape,
}
use kryptic_k8s_operator.Errors.{wrap, Step, ok, err}
use kryptic_k8s_operator.Dynsecret.Provider.{integer, is_number}
use kryptic_k8s_operator.Dynsecret.Templates.{ProviderConfig}
use kryptic_k8s_operator.Dynsecret.Sql.{TempFiles, write_temp_ca}

-- `cfg.SSLVerify != nil && !*cfg.SSLVerify`
unfoldable pub skips_verify : Option Bool → Bool
skips_verify none = false
skips_verify (some b) = not b

-- `port`, with the driver's own where it is 0.
unfoldable pub port_or : ℕ → ℤ → ℤ
unfolding is_number
port_or standard port = if is_number port 0 then pos standard else port

-- `url.Values.Encode` at keys in their order.
unfoldable pub encode_values : Dict Text Text → Text
encode_values [] = []
encode_values ((key, value) ∷ []) =
    escape query_component key ++ (text "=" ++ escape query_component value)
encode_values ((key, value) ∷ entry ∷ values) =
    escape query_component key
    ++ (text "=" ++ (escape query_component value ++ (text "&" ++ encode_values (entry ∷ values))))

-- `URL.String` at the fields that `postgresDSN` sets.
unfoldable pub url_string : Text → Text → Text → Text → Text → Text
url_string username password host path query =
    text "postgres://"
    ++ (escape user_password username
        ++ (text ":"
            ++ (escape user_password password
                ++ (text "@"
                    ++ (escape host_part host ++ (escape path_part path ++ (text "?" ++ query)))))))

-- The host of the URL.
unfoldable pub host_port : ℕ → ProviderConfig → Text
host_port standard cfg = cfg.host ++ (text ":" ++ integer (port_or standard cfg.port))

-- What `postgresDSN` returns once `q` is set.
unfoldable pub postgres_url : ProviderConfig → Dict Text Text → Text
unfolding url_string host_port
postgres_url cfg q =
    url_string cfg.username cfg.password (host_port 5432 cfg) (b'/' ∷ cfg.database)
      (encode_values q)

-- `postgresDSN`: the name and the cleanup.
unfoldable pub postgres_dsn :
    {State : Type 0} → TempFiles State → ProviderConfig → Step State (Text × (State → State))
postgres_dsn F cfg s =
    if not cfg.ssl
    then (ok (postgres_url cfg ((text "sslmode", text "disable") ∷ []), λ t. t), s)
    else if skips_verify cfg.ssl_verify
    then (ok (postgres_url cfg ((text "sslmode", text "require") ∷ []), λ t. t), s)
    else if trim_space cfg.ca == []
    then (ok (postgres_url cfg ((text "sslmode", text "verify-full") ∷ []), λ t. t), s)
    else (let (r, s') = write_temp_ca F cfg.ca s in
        elim r [
          | err e ↦ (err (wrap (text "write CA bundle: ") e), s')
          | ok (path, cleanup) ↦ (
            ok (
              postgres_url cfg
                  ((text "sslmode", text "verify-full") ∷ (text "sslrootcert", path) ∷ []),
              cleanup,
            ),
            s',
          )
        ])

-- `tls` of `mysqlDSN`
unfoldable pub mysql_tls : ProviderConfig → Text
mysql_tls cfg =
    if cfg.ssl
    then (if skips_verify cfg.ssl_verify then text "skip-verify" else text "true")
    else text "false"

-- `mysqlDSN`
unfoldable pub mysql_dsn : ProviderConfig → Text
mysql_dsn cfg =
    cfg.username
    ++ (text ":"
        ++ (cfg.password
            ++ (text "@tcp("
                ++ (host_port 3306 cfg
                    ++ (text ")/"
                        ++ (cfg.database
                            ++ (text "?tls="
                                ++ (mysql_tls cfg
                                    ++ text "&multiStatements=true&parseTime=true"))))))))

-- `opts` of `oracleDSN`
unfoldable pub oracle_options : ProviderConfig → Dict Text Text
oracle_options cfg =
    if cfg.ssl
    then (if skips_verify cfg.ssl_verify
        then (text "SSL", text "enable") ∷ (text "SSL Verify", text "false") ∷ []
        else (text "SSL", text "enable") ∷ [])
    else []

-- `oracleDSN`, over `go_ora.BuildUrl`.
unfoldable pub oracle_dsn :
    (Text → ℤ → Text → Text → Text → Dict Text Text → Text) → ProviderConfig → Text
unfolding port_or
oracle_dsn build_url cfg =
    build_url cfg.host (port_or 1521 cfg.port) cfg.database cfg.username cfg.password
      (oracle_options cfg)
