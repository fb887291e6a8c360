-- ===== src/Dynsecret/Dispatch/Files/Provided.antt =====
-- The temporary files after the work of the providers that make one.
use kryptic_k8s_operator.Base.{
  List, [], ◌∷◌, ◌≡◌, refl, Bool, true, false, inl, inr, Text, text, text_eq, arith, if◌then◌else◌,
}
use kryptic_k8s_operator.Errors.{Result-cases, Step, ◌>>◌, return}
use kryptic_k8s_operator.Dynsecret.Templates.{
  Layout, ProviderConfig, Work, render_statements, statement_vars,
}
use kryptic_k8s_operator.Dynsecret.Sql.{
  TempFiles, Databases, run_sql, split_statements, write_temp_ca, deferred, minted_by,
}
use kryptic_k8s_operator.Dynsecret.Sql.Dsn.{postgres_dsn}
use kryptic_k8s_operator.Dynsecret.Sql.Providers.{run_postgres}
use kryptic_k8s_operator.Dynsecret.Cassandra.{
  CqlLibrary, cluster_config, open_session, cassandra_session, cql_all, cql_exec, cassandra_run,
}
use kryptic_k8s_operator.Dynsecret.Dispatch.Files.{
  Keeps, Owes, IsLawfulFiles, KeepsDatabases, KeepsCql,
}
use kryptic_k8s_operator.Dynsecret.Dispatch.Files.Keeps.{
  Keeps-bind, Keeps-deferred, Owes-bind, run_sql-Keeps, write_temp_ca-Owes,
}

module _ {State : Type 0} (present : State → List Text) where
  -- A script, and what a mint returns after it.
  pub Keeps-minted :
      (m : Step State (Unit {0})) (work : Work)
      → Keeps present m
      → Keeps present (m >> return (minted_by work))
  Keeps-minted m work kept = Keeps-bind present m (λ _. return (minted_by work)) kept λ _ s. refl

  -- A renewal runs a script or does nothing.
  pub Keeps-unless :
      (b : Bool) (m : Step State (Unit {0}))
      → Keeps present m
      → Keeps present (if b then return tt else m)
  Keeps-unless true m kept s = refl
  Keeps-unless false m kept s = kept s

  module _ (F : TempFiles State) (lawful : IsLawfulFiles present F) where
    postgres_dsn-Owes : (cfg : ProviderConfig) → Owes present (postgres_dsn F cfg)
    unfolding postgres_dsn
    postgres_dsn-Owes cfg s = elim (Result-cases (write_temp_ca F cfg.ca s).0) [
      | inl (refusal, refused) ↦
          let same = (write_temp_ca-Owes present F lawful cfg.ca s).0 refusal refused in
          (λ e failed. ground arith, λ dsn clean done t e. ground arith)
      | inr ((path, cleanup), made) ↦ (
        λ e failed. ground arith,
        λ dsn clean done t e.
            let cleaned : present t ≡ present (write_temp_ca F cfg.ca s).1
                → present (cleanup t) ≡ present s =
              (write_temp_ca-Owes present F lawful cfg.ca s).1 path cleanup made t in
            ground arith,
      )
    ]

    cluster_config-Owes : (cfg : ProviderConfig) → Owes present (cluster_config F cfg)
    unfolding cluster_config
    cluster_config-Owes cfg s = elim (Result-cases (write_temp_ca F cfg.ca s).0) [
      | inl (refusal, refused) ↦
          let same = (write_temp_ca-Owes present F lawful cfg.ca s).0 refusal refused in
          (λ e failed. ground arith, λ cluster clean done t e. ground arith)
      | inr ((path, cleanup), made) ↦ (
        λ e failed. ground arith,
        λ cluster clean done t e.
            let cleaned : present t ≡ present (write_temp_ca F cfg.ca s).1
                → present (cleanup t) ≡ present s =
              (write_temp_ca-Owes present F lawful cfg.ca s).1 path cleanup made t in
            ground arith,
      )
    ]

    module _ (D : Databases State) (kept : KeepsDatabases present D) (layout : Layout) where
      pub run_postgres-Keeps :
          (cfg : ProviderConfig) (script : Text)
          → Keeps present (run_postgres D layout F cfg script)
      unfolding run_postgres
      run_postgres-Keeps cfg script =
          Owes-bind present (postgres_dsn F cfg) (λ dsn. run_sql D (text "pgx") dsn script)
            (postgres_dsn-Owes cfg) λ dsn. run_sql-Keeps present D kept (text "pgx") dsn script

    module _ (Q : CqlLibrary State) (kept : KeepsCql present Q) (layout : Layout) where
      cassandra_session-Owes :
          (cfg : ProviderConfig) → Owes present (cassandra_session F Q layout cfg)
      unfolding cassandra_session open_session
      cassandra_session-Owes cfg s = elim (Result-cases (cluster_config F cfg s).0) [
        | inl (refusal, refused) ↦
            let same = (cluster_config-Owes cfg s).0 refusal refused in
            (λ e failed. ground arith, λ session clean done t e. ground arith)
        | inr ((cluster, cleanup), made) ↦
            let same = kept.create_session cluster (cluster_config F cfg s).1 in
            let cleaned = (cluster_config-Owes cfg s).1 cluster cleanup made in
            (
              λ e failed.
                  let after =
                    cleaned (Q.create_session cluster (cluster_config F cfg s).1).1 same in
                  ground arith,
              λ session clean done t e.
                  let after : present t ≡ present (cluster_config F cfg s).1
                      → present (cleanup t) ≡ present s =
                    cleaned t in
                  ground arith,
            )
      ]

      cql_all-Keeps :
          (session : Q.Session) (stmts : List Text)
          → Keeps present (cql_all F Q layout session stmts)
      unfolding cql_all
      cql_all-Keeps session [] s = refl
      cql_all-Keeps session (stmt ∷ rest) s = elim (Result-cases (Q.exec_query session stmt s).0) [
        | inl (e, failed) ↦ ground (arith, kept.exec_query session stmt s)
        | inr (_, done) ↦ ground (
          arith,
          kept.exec_query session stmt s,
          cql_all-Keeps session rest (Q.exec_query session stmt s).1,
        )
      ]

      pub cassandra_run-Keeps :
          (work : Work) (template : Text) → Keeps present (cassandra_run F Q layout work template)
      unfolding cassandra_run cql_exec
      cassandra_run-Keeps work template =
          let script : Text =
            render_statements layout.order template (statement_vars layout.format work) in
          Owes-bind present (cassandra_session F Q layout work.config)
            (λ session. deferred (Q.close_session session) (cql_exec F Q layout session script))
            (cassandra_session-Owes work.config)
            λ session.
              Keeps-deferred present (Q.close_session session) (cql_exec F Q layout session script)
                (cql_all-Keeps session (split_statements script)) (kept.close_session session)
