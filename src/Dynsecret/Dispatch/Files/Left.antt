-- ===== src/Dynsecret/Dispatch/Files/Left.antt =====
-- The temporary files around the work of every provider.
use kryptic_k8s_operator.Base.{List, [], refl, Text, text, ◌==◌, text_eq}
use kryptic_k8s_operator.Strings.{trim_space}
use kryptic_k8s_operator.Dynsecret.Provider.{
  ProviderKind, postgres, mysql, oracle, cassandra, redis, aws_iam,
}
use kryptic_k8s_operator.Dynsecret.Templates.{Work}
use kryptic_k8s_operator.Dynsecret.Sql.{run_sql}
use kryptic_k8s_operator.Dynsecret.Sql.Dsn.{mysql_dsn, oracle_dsn}
use kryptic_k8s_operator.Dynsecret.Sql.Providers.{
  script_of, run_postgres, postgres_mint, postgres_renew, postgres_revoke, mysql_mint, mysql_renew,
  mysql_revoke, oracle_mint, oracle_renew, oracle_revoke,
}
use kryptic_k8s_operator.Dynsecret.Redis.{redis_run, redis_mint, redis_renew, redis_revoke}
use kryptic_k8s_operator.Dynsecret.Cassandra.{
  cassandra_run, cassandra_mint, cassandra_renew, cassandra_revoke,
}
use kryptic_k8s_operator.Dynsecret.Awsiam.{aws_renew}
use kryptic_k8s_operator.Dynsecret.Dispatch.{Drivers, mint_with, renew_with, revoke_with}
use kryptic_k8s_operator.Dynsecret.Dispatch.Files.{
  Keeps, IsLawfulFiles, KeepsDatabases, KeepsRedis, KeepsCql, KeepsAws,
}
use kryptic_k8s_operator.Dynsecret.Dispatch.Files.Keeps.{run_sql-Keeps}
use kryptic_k8s_operator.Dynsecret.Dispatch.Files.Remote.{
  redis_run-Keeps, aws_mint-Keeps, aws_revoke-Keeps,
}
use kryptic_k8s_operator.Dynsecret.Dispatch.Files.Provided.{
  Keeps-minted, Keeps-unless, run_postgres-Keeps, cassandra_run-Keeps,
}

module _ (L : Drivers) (present : L.State → List Text) (files : IsLawfulFiles present L.files)
    (databases : KeepsDatabases present L.databases)
    (redis_kept : KeepsRedis present L.redis_library) (cql : KeepsCql present L.cql)
    (aws : KeepsAws present L.aws) where
  mint_with-Keeps : (kind : ProviderKind) (work : Work) → Keeps present (mint_with L kind work)
  unfolding mint_with postgres_mint mysql_mint oracle_mint cassandra_mint redis_mint
  mint_with-Keeps postgres work =
      let script : Text = script_of L.databases L.layout work work.creation_statement in
      Keeps-minted present (run_postgres L.databases L.layout L.files work.config script) work
        (run_postgres-Keeps present L.files files L.databases databases L.layout work.config script)
  mint_with-Keeps mysql work =
      let script : Text = script_of L.databases L.layout work work.creation_statement in
      Keeps-minted present (run_sql L.databases (text "mysql") (mysql_dsn work.config) script) work
        (run_sql-Keeps present L.databases databases (text "mysql") (mysql_dsn work.config) script)
  mint_with-Keeps oracle work =
      let script : Text = script_of L.databases L.layout work work.creation_statement in
      let dsn : Text = oracle_dsn L.build_url work.config in
      Keeps-minted present (run_sql L.databases (text "oracle") dsn script) work
        (run_sql-Keeps present L.databases databases (text "oracle") dsn script)
  mint_with-Keeps cassandra work =
      Keeps-minted present
        (λ s. cassandra_run L.files L.cql L.layout work work.creation_statement s) work
        (cassandra_run-Keeps present L.files files L.cql cql L.layout work work.creation_statement)
  mint_with-Keeps redis work =
      Keeps-minted present (λ s. redis_run L.redis_library L.layout work work.creation_statement s)
        work
        (redis_run-Keeps present L.redis_library redis_kept L.layout work work.creation_statement)
  mint_with-Keeps aws_iam work = aws_mint-Keeps present L.aws aws work

  renew_with-Keeps : (kind : ProviderKind) (work : Work) → Keeps present (renew_with L kind work)
  unfolding renew_with postgres_renew mysql_renew oracle_renew cassandra_renew redis_renew aws_renew
  renew_with-Keeps postgres work s =
      let script : Text = script_of L.databases L.layout work work.renew_statement in
      Keeps-unless present (trim_space work.renew_statement == [])
        (run_postgres L.databases L.layout L.files work.config script)
        (run_postgres-Keeps present L.files files L.databases databases L.layout work.config script)
        s
  renew_with-Keeps mysql work s =
      let script : Text = script_of L.databases L.layout work work.renew_statement in
      Keeps-unless present (trim_space work.renew_statement == [])
        (run_sql L.databases (text "mysql") (mysql_dsn work.config) script)
        (run_sql-Keeps present L.databases databases (text "mysql") (mysql_dsn work.config) script)
        s
  renew_with-Keeps oracle work s =
      let script : Text = script_of L.databases L.layout work work.renew_statement in
      let dsn : Text = oracle_dsn L.build_url work.config in
      Keeps-unless present (trim_space work.renew_statement == [])
        (run_sql L.databases (text "oracle") dsn script)
        (run_sql-Keeps present L.databases databases (text "oracle") dsn script) s
  renew_with-Keeps cassandra work s = refl
  renew_with-Keeps redis work s = refl
  renew_with-Keeps aws_iam work s = refl

  revoke_with-Keeps : (kind : ProviderKind) (work : Work) → Keeps present (revoke_with L kind work)
  unfolding revoke_with postgres_revoke mysql_revoke oracle_revoke cassandra_revoke redis_revoke
  revoke_with-Keeps postgres work =
      run_postgres-Keeps present L.files files L.databases databases L.layout work.config
        (script_of L.databases L.layout work work.revocation_statement)
  revoke_with-Keeps mysql work =
      run_sql-Keeps present L.databases databases (text "mysql") (mysql_dsn work.config)
        (script_of L.databases L.layout work work.revocation_statement)
  revoke_with-Keeps oracle work =
      run_sql-Keeps present L.databases databases (text "oracle")
        (oracle_dsn L.build_url work.config)
        (script_of L.databases L.layout work work.revocation_statement)
  revoke_with-Keeps cassandra work =
      cassandra_run-Keeps present L.files files L.cql cql L.layout work work.revocation_statement
  revoke_with-Keeps redis work =
      redis_run-Keeps present L.redis_library redis_kept L.layout work work.revocation_statement
  revoke_with-Keeps aws_iam work = aws_revoke-Keeps present L.aws aws work

  -- Whatever a mint, a renewal or a revocation of any provider does, and whether it fails or not, the
  -- temporary files are afterwards those from before, if the files behave as documented and the
  -- drivers make none of their own.
  pub providers_leave_no_file :
      (kind : ProviderKind) (work : Work)
      → Keeps present (mint_with L kind work)
        × Keeps present (renew_with L kind work)
        × Keeps present (revoke_with L kind work)
  providers_leave_no_file kind work =
      (mint_with-Keeps kind work, renew_with-Keeps kind work, revoke_with-Keeps kind work)
