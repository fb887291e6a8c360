-- ===== src/Examples/Providers.antt =====
-- The theorems on the providers at concrete inputs.
use kryptic_k8s_operator.Base.Int.{pos, negsuc}
use kryptic_k8s_operator.Base.{
  ◌≤◌, ◌≡◌, refl, true, false, none, some, List, [], ◌∷◌, ◌++◌, Text, text, text_eq, arith, All,
  ℕ_discrete,
}
use kryptic_k8s_operator.Strings.{trim_space, split}
use kryptic_k8s_operator.Strings.Find.{rune_width}
use kryptic_k8s_operator.Strings.Fold.{equal_fold, to_lower}
use kryptic_k8s_operator.Strings.Count.{count}
use kryptic_k8s_operator.Strings.Fields.{fields, join}
use kryptic_k8s_operator.Strings.Escape.{user_password, unescape}
use kryptic_k8s_operator.Errors.{GoError, plain, wrap, ok, err}
use kryptic_k8s_operator.Dynsecret.Provider.{postgres}
use kryptic_k8s_operator.Dynsecret.Sql.{split_statements, write_temp_ca}
use kryptic_k8s_operator.Dynsecret.Sql.Dsn.{
  postgres_url, postgres_dsn, mysql_dsn, oracle_options, skips_verify,
}
use kryptic_k8s_operator.Dynsecret.Sql.Security.{mysql_security, oracle_security, asked}
use kryptic_k8s_operator.Dynsecret.Sql.Verified.{url_front, PgQuery, postgres_dsn_verified}
use kryptic_k8s_operator.Dynsecret.Sql.Userinfo.{NoMark, postgres_url-userinfo}
use kryptic_k8s_operator.Dynsecret.Sql.Statements.{IsStatement, split_statements-join}
use kryptic_k8s_operator.Dynsecret.Redis.{redis_do, redis_lines, redis_options}
use kryptic_k8s_operator.Dynsecret.Redis.Commands.{commands, send_all, redis_do-err}
use kryptic_k8s_operator.Dynsecret.Cassandra.{plain_cluster, ssl_opts_of, cluster_config}
use kryptic_k8s_operator.Dynsecret.Awsiam.{
  aws_config, auth_method_of, delete_user_of, aws_revoke, revoked_name, needs_no_revoke,
  session_duration,
}
use kryptic_k8s_operator.Dynsecret.Awsiam.Duration.{session_duration-bounds}
use kryptic_k8s_operator.Dynsecret.Awsiam.Revoked.{Users, aws_revoke-gone}
use kryptic_k8s_operator.Dynsecret.Dispatch.{mint_with, renew_with, revoke_with}
use kryptic_k8s_operator.Dynsecret.Sql.Parameters.{tls_parameter}
use kryptic_k8s_operator.Dynsecret.Dispatch.Agreed.{
  redis_security, cassandra_security, drivers_agree,
}
use kryptic_k8s_operator.Dynsecret.Dispatch.Files.{Keeps}
use kryptic_k8s_operator.Dynsecret.Dispatch.Files.Left.{providers_leave_no_file}
use kryptic_k8s_operator.Examples.Drivers.{
  ca_path, unlink, files, redis_library, iam, is_user, config, work, drivers, present, files-lawful,
  databases-kept, redis-kept, cql-kept, aws-kept,
}

providers_leave_no_file_example :
    Keeps present (mint_with drivers postgres work)
    × Keeps present (renew_with drivers postgres work)
    × Keeps present (revoke_with drivers postgres work)
providers_leave_no_file_example =
    providers_leave_no_file drivers present files-lawful databases-kept redis-kept cql-kept aws-kept
      postgres work

-- A configuration with a bundle, and a password with every byte that separates parts of a URL.
postgres_dsn_verified_example :
    (query : Text) × (postgres_url config
        ((text "sslmode", text "verify-full") ∷ (text "sslrootcert", ca_path) ∷ [])
      ≡ url_front config ++ (text "?" ++ query))
    × (count 63 (url_front config) ≡ 0)
    × PgQuery files config [] query
unfolding postgres_dsn write_temp_ca skips_verify trim_space text_eq text
postgres_dsn_verified_example =
    postgres_dsn_verified files config []
      (postgres_url config
        ((text "sslmode", text "verify-full") ∷ (text "sslrootcert", ca_path) ∷ []))
      (unlink ca_path) refl

postgres_url-userinfo_example :
    (username : Text) × (password : Text) × (rest : Text) × (postgres_url config []
      ≡ text "postgres://" ++ (username ++ (text ":" ++ (password ++ (text "@" ++ rest)))))
    × NoMark username
    × NoMark password
    × (unescape user_password username ≡ text "admin")
    × (unescape user_password password ≡ text "p@ss/w:rd?")
postgres_url-userinfo_example = postgres_url-userinfo config []

drivers_agree_example :
    (mysql_security (tls_parameter (mysql_dsn config)) ≡ asked true none)
    × (oracle_security (oracle_options config) ≡ asked true none)
    × (redis_security (redis_options config).tls_config ≡ asked true none)
    × (cassandra_security (some (record { enable_host_verification = true; ca_path = ca_path }))
        ≡ asked true none)
unfolding cluster_config ssl_opts_of skips_verify text_eq trim_space text write_temp_ca ℕ_discrete
drivers_agree_example =
    drivers_agree files config []
      (record (plain_cluster config) { ssl_opts = some (ssl_opts_of config ca_path) })
      (unlink ca_path) refl refl refl

two_statements : All IsStatement (text "CREATE USER u" ∷ text "GRANT" ∷ [])
unfolding trim_space text text_eq ℕ_discrete
two_statements = (
  record { one = refl; some_text = λ e. cc; no_space = refl },
  (record { one = refl; some_text = λ e. cc; no_space = refl }, tt),
)

split_statements-join_example :
    (split_statements (text "CREATE USER u;GRANT") ≡ text "CREATE USER u" ∷ text "GRANT" ∷ [])
    × (split_statements (text "CREATE USER u;GRANT;") ≡ text "CREATE USER u" ∷ text "GRANT" ∷ [])
unfolding join text
split_statements-join_example =
    split_statements-join (text "CREATE USER u" ∷ text "GRANT" ∷ []) two_statements

-- The second command is refused.
abbrev script : Text
script = text "PING" ++ (10 ∷ text "BAD >p1")

refused_error :
    (redis_do redis_library (text "db") script []).0
    ≡ err (wrap (text "BAD >p1: ") (plain (text "unknown")))
unfolding redis_do redis_lines split trim_space fields text text_eq ℕ_discrete
refused_error = refl

redis_do-err_example :
    (before : List Text) × (line : Text) × (after : List Text) × (cause : GoError) × (commands
        (split 10 script)
      ≡ before ++ line ∷ after)
    × ((send_all redis_library (text "db") before []).0 ≡ ok tt)
    × ((redis_library.send_command
          (text "db")
          (fields line)
          (send_all redis_library (text "db") before []).1).0
        ≡ err cause)
    × (wrap (text "BAD >p1: ") (plain (text "unknown")) ≡ wrap (line ++ text ": ") cause)
redis_do-err_example =
    redis_do-err redis_library (text "db") script []
      (wrap (text "BAD >p1: ") (plain (text "unknown"))) refused_error

abbrev users : Users iam
users = record {
  is_there = is_user;
  listing = λ aws name s e failed gone. ground arith;
  deleted = λ aws name s done. ground arith;
  missing = λ aws name s e failed gone. ground arith;
}

revoke_done : (aws_revoke iam work (some (text "u1"))).0 ≡ ok tt
unfolding aws_revoke aws_config auth_method_of delete_user_of revoked_name needs_no_revoke
    equal_fold to_lower rune_width text text_eq ℕ_discrete
revoke_done = refl

aws_revoke-gone_example :
    is_user (aws_revoke iam work (some (text "u1"))).1 (revoked_name iam work) ≡ false
unfolding needs_no_revoke equal_fold rune_width text text_eq ℕ_discrete
aws_revoke-gone_example = aws_revoke-gone iam users work (some (text "u1")) refl revoke_done

session_duration-bounds_example :
    (1 ≤ session_duration 43200 (negsuc 5))
    × (session_duration 43200 (negsuc 5) ≤ 43200)
    × (session_duration 43200 (pos 900) ≡ 900)
    × (session_duration 43200 (negsuc 900) ≡ 3600)
unfolding ℕ_discrete
session_duration-bounds_example =
    session_duration-bounds 43200 (negsuc 5) 900 (omega arith) (omega arith)
