-- ===== src/Dynsecret/Sql/Parameters.antt =====
-- The parameters of a DSN of MySQL, as its driver finds them: after the last `/` and the first `?`
-- behind it, split at `&`.
use kryptic_k8s_operator.Base.{
  ℕ, ◌≡◌, refl, ◌&&◌, Option, some, none, List, [], ◌∷◌, ◌++◌, Text, text, ◌==◌, text_eq, nat_eq,
  arith, if◌then◌else◌, ℕ_discrete, drop, Bool-cases, inl, inr,
}
use kryptic_k8s_operator.Strings.{split}
use kryptic_k8s_operator.Strings.Find.{has_prefix}
use kryptic_k8s_operator.Strings.Count.{count, count-append}
use kryptic_k8s_operator.Dynsecret.Templates.{ProviderConfig}
use kryptic_k8s_operator.Dynsecret.Sql.Dsn.{skips_verify, host_port, mysql_tls, mysql_dsn}
use mathlib.Core.List.{append_assoc}

-- What stands behind the last `b`, and behind the first.
unfoldable after_last : ℕ → Text → Text
after_last b [] = []
after_last b (a ∷ s) = let rest = after_last b s in if (a == b) && (count b s == 0) then s else rest

unfoldable after_first : ℕ → Text → Text
after_first b [] = []
after_first b (a ∷ s) = let rest = after_first b s in if a == b then s else rest

-- The value of the last field `tls=`.
tls_of : List Text → Option Text
tls_of [] = none
tls_of (field ∷ fields) = elim (tls_of fields) [
  | some value ↦ some value
  | none ↦ if has_prefix (text "tls=") field then some (drop 4 field) else none
]

-- The `tls` that the driver finds in a DSN.
pub tls_parameter : Text → Option Text
tls_parameter dsn = tls_of (split b'&' (after_first b'?' (after_last b'/' dsn)))

after_last-append : (b : ℕ) (s t : Text) → count b t ≡ 0 → after_last b (s ++ b ∷ t) ≡ t
unfolding after_last
after_last-append b [] t none_in = ground arith
after_last-append b (a ∷ s) t none_in =
    ground (arith, after_last-append b s t none_in, count-append b s (b ∷ t))

after_first-append : (b : ℕ) (s t : Text) → count b s ≡ 0 → after_first b (s ++ b ∷ t) ≡ t
unfolding after_first
after_first-append b [] t none_in = ground arith
after_first-append b (a ∷ s) t none_in = ground (arith, after_first-append b s t (ground arith))

-- The query of the DSN.
abbrev query : Text → Text
query tls = text "tls=" ++ (tls ++ text "&multiStatements=true&parseTime=true")

-- The DSN up to the `/` in front of the database.
front : ProviderConfig → Text
front cfg =
    cfg.username
    ++ (text ":" ++ (cfg.password ++ (text "@tcp(" ++ (host_port 3306 cfg ++ text ")"))))

mysql_dsn-front :
    (cfg : ProviderConfig)
    → mysql_dsn cfg ≡ front cfg ++ b'/' ∷ (cfg.database ++ b'?' ∷ query (mysql_tls cfg))
unfolding mysql_dsn front text
mysql_dsn-front cfg = simp append_assoc

-- Where the database has neither `/` nor `?`, the query is what the driver finds, whatever stands in
-- the user name, the password and the host.
query_lem :
    (cfg : ProviderConfig)
    → count b'/' cfg.database ≡ 0
    → count b'?' cfg.database ≡ 0
    → (no_slash : count b'/' (query (mysql_tls cfg)) ≡ 0)
    → after_first b'?' (after_last b'/' (mysql_dsn cfg)) ≡ query (mysql_tls cfg)
query_lem cfg slashes marks no_slash =
    let database : Text = cfg.database ++ b'?' ∷ query (mysql_tls cfg) in
    let clean : count b'/' database ≡ 0 =
      ground (arith, count-append b'/' cfg.database (b'?' ∷ query (mysql_tls cfg))) in
    rw (mysql_dsn-front cfg, after_last-append b'/' (front cfg) database clean)
      (after_first-append b'?' cfg.database (query (mysql_tls cfg)) marks)

query-slashes : (cfg : ProviderConfig) → count b'/' (query (mysql_tls cfg)) ≡ 0
unfolding mysql_tls text ℕ_discrete
query-slashes cfg = elim (Bool-cases cfg.ssl) [
  | inr off ↦ rw (off, mysql_tls) refl
  | inl on ↦ elim (Bool-cases (skips_verify cfg.ssl_verify)) [
    | inl skipped ↦ rw (on, skipped, mysql_tls) refl
    | inr checked ↦ rw (on, checked, mysql_tls) refl
  ]
]

query-tls :
    (cfg : ProviderConfig) → tls_of (split b'&' (query (mysql_tls cfg))) ≡ some (mysql_tls cfg)
unfolding mysql_tls text ℕ_discrete split has_prefix tls_of
query-tls cfg = elim (Bool-cases cfg.ssl) [
  | inr off ↦ rw (off, mysql_tls) refl
  | inl on ↦ elim (Bool-cases (skips_verify cfg.ssl_verify)) [
    | inl skipped ↦ rw (on, skipped, mysql_tls) refl
    | inr checked ↦ rw (on, checked, mysql_tls) refl
  ]
]

-- The driver finds the `tls` that was written.
pub tls_parameter-mysql_dsn :
    (cfg : ProviderConfig)
    → count b'/' cfg.database ≡ 0
    → count b'?' cfg.database ≡ 0
    → tls_parameter (mysql_dsn cfg) ≡ some (mysql_tls cfg)
unfolding tls_parameter
tls_parameter-mysql_dsn cfg slashes marks =
    rw (query_lem cfg slashes marks (query-slashes cfg)) (query-tls cfg)
