-- ===== src/Dynsecret/Sql/Security.antt =====
-- How safe the connections of MySQL and Oracle are.
use kryptic_k8s_operator.Base.Dict
use kryptic_k8s_operator.Base.{
  ◌≡◌, refl, Bool, true, false, ◌||◌, Option, none, some, [], ◌∷◌, Text, text, ◌==◌, text_eq,
  if◌then◌else◌, ℕ_discrete,
}
use kryptic_k8s_operator.Dynsecret.Templates.{ProviderConfig}
use kryptic_k8s_operator.Dynsecret.Sql.Dsn.{skips_verify, mysql_tls, mysql_dsn, oracle_options}
use kryptic_k8s_operator.Dynsecret.Sql.Parameters.{tls_parameter, tls_parameter-mysql_dsn}
use kryptic_k8s_operator.Strings.Count.{count}

-- How safe a connection is.
pub data Security : Type 0 where
  unencrypted unverified verified : Security

-- What a configuration asks for: TLS is verified unless `sslVerify` is there and false.
abbrev pub asked : Bool → Option Bool → Security
asked false verify = unencrypted
asked true none = verified
asked true (some true) = verified
asked true (some false) = unverified

-- How `tls` and the options of Oracle are read by their drivers.
abbrev pub mysql_security : Option Text → Security
mysql_security none = unencrypted
mysql_security (some tls) =
    if tls == text "true"
    then verified
    else if tls == text "skip-verify"
    then unverified
    else unencrypted

-- An option is on at `enable` and at `true`.
abbrev is_on : Text → Bool
is_on value = value == text "enable" || value == text "true"

abbrev pub oracle_security : Dict.Dict Text Text → Security
oracle_security options = elim (Dict.lookup (text "SSL") options) [
  | none ↦ unencrypted
  | some enabled ↦ elim (Dict.lookup (text "SSL Verify") options) [
    | none ↦ if is_on enabled then verified else unencrypted
    | some verify ↦
        if is_on enabled then (if is_on verify then verified else unverified) else unencrypted
  ]
]

-- What holds of both flags' values holds of a configuration.
pub security-cases {ℓ} :
    (P : Bool → Option Bool → Type ℓ)
    → P true none
    → P true (some true)
    → P true (some false)
    → ((o : Option Bool) → P false o)
    → (b : Bool) (o : Option Bool) → P b o
security-cases P unset on skipped off false o = off o
security-cases P unset on skipped off true none = unset
security-cases P unset on skipped off true (some true) = on
security-cases P unset on skipped off true (some false) = skipped

mysql_tls-security :
    (cfg : ProviderConfig) → mysql_security (some (mysql_tls cfg)) ≡ asked cfg.ssl cfg.ssl_verify
unfolding mysql_tls skips_verify text text_eq ℕ_discrete
mysql_tls-security cfg =
    security-cases
      (λ b o.
        mysql_security (
          some (
            if b
            then (if skips_verify o then text "skip-verify" else text "true")
            else text "false"))
        ≡ asked b o)
      refl refl refl (λ o. refl) cfg.ssl cfg.ssl_verify

-- What the DSN of MySQL asks for, where the database has neither `/` nor `?`.
pub mysql_dsn-security :
    (cfg : ProviderConfig)
    → count b'/' cfg.database ≡ 0
    → count b'?' cfg.database ≡ 0
    → mysql_security (tls_parameter (mysql_dsn cfg)) ≡ asked cfg.ssl cfg.ssl_verify
mysql_dsn-security cfg slashes marks =
    rw (tls_parameter-mysql_dsn cfg slashes marks) (mysql_tls-security cfg)

pub oracle_options-security :
    (cfg : ProviderConfig) → oracle_security (oracle_options cfg) ≡ asked cfg.ssl cfg.ssl_verify
unfolding oracle_options skips_verify Dict.lookup text text_eq ℕ_discrete
oracle_options-security cfg =
    security-cases
      (λ b o.
        oracle_security (
          if b
          then (if skips_verify o
              then (text "SSL", text "enable") ∷ (text "SSL Verify", text "false") ∷ []
              else (text "SSL", text "enable") ∷ [])
          else [])
        ≡ asked b o)
      refl refl refl (λ o. refl) cfg.ssl cfg.ssl_verify
