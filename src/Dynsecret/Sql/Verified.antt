-- ===== src/Dynsecret/Sql/Verified.antt =====
-- What the data source name of PostgreSQL says of TLS.
use kryptic_k8s_operator.Base.Dict
use kryptic_k8s_operator.Base.{
  ◌≡◌, refl, sym, inl, inr, Bool, true, false, Option, none, some, [], ◌∷◌, ◌++◌, Text, text, ◌==◌,
  text_eq, arith, Bool-cases, ℕ_discrete,
}
use kryptic_k8s_operator.Strings.{trim_space}
use kryptic_k8s_operator.Strings.Count.{count, count-append}
use kryptic_k8s_operator.Strings.Escape.{
  user_password, host_part, path_part, query_component, escape, should_escape,
}
use kryptic_k8s_operator.Strings.Escape.Marks.{user_password-marks, host_part-mark, path_part-mark}
use mathlib.Core.List.{append_assoc}
use kryptic_k8s_operator.Errors.{ok, Result-cases}
use kryptic_k8s_operator.Dynsecret.Templates.{ProviderConfig}
use kryptic_k8s_operator.Dynsecret.Sql.{TempFiles, write_temp_ca}
use kryptic_k8s_operator.Dynsecret.Sql.Dsn.{
  skips_verify, host_port, encode_values, url_string, postgres_url, postgres_dsn,
}
use kryptic_k8s_operator.Dynsecret.Sql.Security.{Security, unencrypted, unverified, verified, asked}

-- The query that a security stands for.
abbrev ssl_mode : Security → Text
ssl_mode unencrypted = text "sslmode=disable"
ssl_mode unverified = text "sslmode=require"
ssl_mode verified = text "sslmode=verify-full"

-- The URL up to its query.
abbrev pub url_front : ProviderConfig → Text
url_front cfg =
    text "postgres://"
    ++ (escape user_password cfg.username
        ++ (text ":"
            ++ (escape user_password cfg.password
                ++ (text "@"
                    ++ (escape host_part (host_port 5432 cfg)
                        ++ escape path_part (b'/' ∷ cfg.database))))))

url_front-mark : (cfg : ProviderConfig) → count 63 (url_front cfg) ≡ 0
unfolding text ℕ_discrete
url_front-mark cfg = omega (
  arith,
  count-append 63 (escape user_password cfg.username) (
      text ":"
      ++ (escape user_password cfg.password
          ++ (text "@"
              ++ (escape host_part (host_port 5432 cfg)
                  ++ escape path_part (b'/' ∷ cfg.database))))),
  count-append 63 (escape user_password cfg.password) (
      text "@"
      ++ (escape host_part (host_port 5432 cfg) ++ escape path_part (b'/' ∷ cfg.database))),
  count-append 63 (escape host_part (host_port 5432 cfg)) (escape path_part (b'/' ∷ cfg.database)),
  (user_password-marks cfg.username).2,
  (user_password-marks cfg.password).2,
  host_part-mark (host_port 5432 cfg),
  path_part-mark (b'/' ∷ cfg.database),
)

postgres_url-front :
    (cfg : ProviderConfig) (q : Dict.Dict Text Text)
    → postgres_url cfg q ≡ url_front cfg ++ (text "?" ++ encode_values q)
unfolding postgres_url url_string text
postgres_url-front cfg q = simp append_assoc

abbrev mode_of : Security → Text
mode_of unencrypted = text "disable"
mode_of unverified = text "require"
mode_of verified = text "verify-full"

encode-mode :
    (security : Security)
    → encode_values ((text "sslmode", mode_of security) ∷ []) ≡ ssl_mode security
unfolding encode_values escape should_escape text ℕ_discrete
encode-mode unencrypted = refl
encode-mode unverified = refl
encode-mode verified = refl

encode-mode_ca :
    (path : Text)
    → encode_values ((text "sslmode", text "verify-full") ∷ (text "sslrootcert", path) ∷ [])
      ≡ ssl_mode verified ++ (text "&sslrootcert=" ++ escape query_component path)
unfolding encode_values escape should_escape text ℕ_discrete
encode-mode_ca path = refl

-- The query of `postgresDSN`: the mode, and behind `verify-full` the bundle that was staged.
pub data PgQuery {State : Type 0} (F : TempFiles State) (cfg : ProviderConfig) (s : State)
    : Text → Type 0 where
  mode_only :
      (security : Security)
      → security ≡ asked cfg.ssl cfg.ssl_verify
      → (security ≡ verified → trim_space cfg.ca ≡ [])
      → PgQuery F cfg s (ssl_mode security)
  with_bundle :
      (path : Text) (cleanup : State → State)
      → verified ≡ asked cfg.ssl cfg.ssl_verify
      → (write_temp_ca F cfg.ca s).0 ≡ ok (path, cleanup)
      → PgQuery F cfg s (ssl_mode verified ++ (text "&sslrootcert=" ++ escape query_component path))

asked-skipped : (o : Option Bool) → skips_verify o ≡ true → unverified ≡ asked true o
unfolding skips_verify
asked-skipped none e = cc
asked-skipped (some true) e = cc
asked-skipped (some false) e = refl

asked-kept : (o : Option Bool) → skips_verify o ≡ false → verified ≡ asked true o
unfolding skips_verify
asked-kept none e = refl
asked-kept (some true) e = refl
asked-kept (some false) e = cc

module _ {State : Type 0} (F : TempFiles State) (cfg : ProviderConfig) (s : State) where
  -- A name that is known up to the values of its query.
  abbrev Known : Text → Type 0
  Known dsn =
      (query : Text) × (dsn ≡ url_front cfg ++ (text "?" ++ query))
      × (count 63 (url_front cfg) ≡ 0)
      × PgQuery F cfg s query

  known :
      (dsn : Text) (q : Dict.Dict Text Text) (query : Text)
      → dsn ≡ postgres_url cfg q
      → encode_values q ≡ query
      → PgQuery F cfg s query
      → Known dsn
  known dsn q query e encoded pg =
      (query, rw (e, sym encoded) (postgres_url-front cfg q), url_front-mark cfg, pg)

  -- Whatever the fields of the configuration hold, the query of the name that `postgresDSN` returns
  -- starts at its first `?`, and is the mode that the configuration asks for: verification of the
  -- server unless `sslVerify` is false, with the path of the bundle staged for it if the
  -- configuration has one.
  pub postgres_dsn_verified :
      (dsn : Text) (cleanup : State → State)
      → (postgres_dsn F cfg s).0 ≡ ok (dsn, cleanup)
      → (query : Text) × (dsn ≡ url_front cfg ++ (text "?" ++ query))
        × (count 63 (url_front cfg) ≡ 0)
        × PgQuery F cfg s query
  unfolding postgres_dsn
  postgres_dsn_verified dsn cleanup done = elim (Bool-cases cfg.ssl) [
    | inr off ↦
        known dsn ((text "sslmode", mode_of unencrypted) ∷ []) _ (ground arith)
          (encode-mode unencrypted) (mode_only unencrypted (rw off refl) (λ e. cc))
    | inl on ↦ elim (Bool-cases (skips_verify cfg.ssl_verify)) [
      | inl skipped ↦
          known dsn ((text "sslmode", mode_of unverified) ∷ []) _ (ground arith)
            (encode-mode unverified)
            (mode_only unverified (rw on (asked-skipped cfg.ssl_verify skipped)) (λ e. cc))
      | inr checked ↦ elim (Bool-cases (trim_space cfg.ca == [])) [
        | inl blank ↦
            known dsn ((text "sslmode", mode_of verified) ∷ []) _ (ground arith)
              (encode-mode verified)
              (mode_only verified (rw on (asked-kept cfg.ssl_verify checked)) (λ e. ground arith))
        | inr bundle ↦ elim (Result-cases (write_temp_ca F cfg.ca s).0) [
          | inl (e, failed) ↦ ground arith
          | inr ((path, clean), made) ↦
              known dsn ((text "sslmode", mode_of verified) ∷ (text "sslrootcert", path) ∷ []) _
                (ground arith) (encode-mode_ca path)
                (with_bundle path clean (rw on (asked-kept cfg.ssl_verify checked)) made)
        ]
      ]
    ]
  ]
