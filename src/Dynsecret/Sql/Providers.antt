-- ===== src/Dynsecret/Sql/Providers.antt =====
-- The providers of internal/dynsecret/sql.go and oracle.go. The format of the expiry and
-- `go_ora.BuildUrl` are parameters.
use kryptic_k8s_operator.Base.Int.{ℤ}
use kryptic_k8s_operator.Base.Dict.{Dict}
use kryptic_k8s_operator.Base.{[], Text, text, ◌==◌, text_eq, if◌then◌else◌}
use kryptic_k8s_operator.Strings.{trim_space}
use kryptic_k8s_operator.Errors.{Step, ◌>>=◌, ◌>>◌, return}
use kryptic_k8s_operator.Dynsecret.Provider.{Minted}
use kryptic_k8s_operator.Dynsecret.Templates.{
  Layout, ProviderConfig, Work, render_statements, statement_vars,
}
use kryptic_k8s_operator.Dynsecret.Sql.{TempFiles, Databases, run_sql, deferred, minted_by}
use kryptic_k8s_operator.Dynsecret.Sql.Dsn.{postgres_dsn, mysql_dsn, oracle_dsn}

abbrev pub BuildUrl : Type 0
BuildUrl = Text → ℤ → Text → Text → Text → Dict Text Text → Text

module _ {State : Type 0} (D : Databases State) (layout : Layout) where
  -- A template of the work with its variables.
  abbrev pub script_of : Work → Text → Text
  script_of work template =
      render_statements layout.order template (statement_vars layout.format work)

  module _ (F : TempFiles State) where
    -- `runPostgres`
    unfoldable pub run_postgres : ProviderConfig → Text → Step State (Unit {0})
    run_postgres cfg script = postgres_dsn F cfg >>= λ (dsn, cleanup).
        deferred cleanup (run_sql D (text "pgx") dsn script)

    -- `postgresProvider.Mint`
    unfoldable pub postgres_mint : Work → Step State Minted
    postgres_mint work =
        run_postgres work.config (script_of work work.creation_statement) >> return (minted_by work)

    -- `postgresProvider.Renew`
    unfoldable pub postgres_renew : Work → Step State (Unit {0})
    postgres_renew work =
        if trim_space work.renew_statement == []
        then return tt
        else run_postgres work.config (script_of work work.renew_statement)

    -- `postgresProvider.Revoke`
    unfoldable pub postgres_revoke : Work → Step State (Unit {0})
    postgres_revoke work = run_postgres work.config (script_of work work.revocation_statement)

  -- `mysqlProvider.Mint`
  unfoldable pub mysql_mint : Work → Step State Minted
  mysql_mint work =
      run_sql D (text "mysql") (mysql_dsn work.config) (script_of work work.creation_statement)
      >> return (minted_by work)

  -- `mysqlProvider.Renew`
  unfoldable pub mysql_renew : Work → Step State (Unit {0})
  mysql_renew work =
      if trim_space work.renew_statement == []
      then return tt
      else run_sql D (text "mysql") (mysql_dsn work.config) (script_of work work.renew_statement)

  -- `mysqlProvider.Revoke`
  unfoldable pub mysql_revoke : Work → Step State (Unit {0})
  mysql_revoke work =
      run_sql D (text "mysql") (mysql_dsn work.config) (script_of work work.revocation_statement)

  module _ (build_url : BuildUrl) where
    -- `oracleProvider.Mint`
    unfoldable pub oracle_mint : Work → Step State Minted
    oracle_mint work =
        run_sql D (text "oracle") (oracle_dsn build_url work.config)
          (script_of work work.creation_statement)
        >> return (minted_by work)

    -- `oracleProvider.Renew`
    unfoldable pub oracle_renew : Work → Step State (Unit {0})
    oracle_renew work =
        if trim_space work.renew_statement == []
        then return tt
        else run_sql D (text "oracle") (oracle_dsn build_url work.config)
            (script_of work work.renew_statement)

    -- `oracleProvider.Revoke`
    unfoldable pub oracle_revoke : Work → Step State (Unit {0})
    oracle_revoke work =
        run_sql D (text "oracle") (oracle_dsn build_url work.config)
          (script_of work work.revocation_statement)
