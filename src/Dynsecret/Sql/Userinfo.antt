-- ===== src/Dynsecret/Sql/Userinfo.antt =====
-- The administrator's credentials in the URL of `postgresDSN`.
use kryptic_k8s_operator.Base.Dict.{Dict}
use kryptic_k8s_operator.Base.{◌≡◌, refl, ◌++◌, Text, text, ◌∷◌}
use kryptic_k8s_operator.Strings.Count.{count}
use kryptic_k8s_operator.Strings.Escape.{user_password, host_part, path_part, escape, unescape}
use kryptic_k8s_operator.Strings.Escape.Marks.{user_password-marks, unescape-escape}
use kryptic_k8s_operator.Dynsecret.Templates.{ProviderConfig}
use kryptic_k8s_operator.Dynsecret.Sql.Dsn.{host_port, encode_values, url_string, postgres_url}

-- None of `@`, `/`, `?`, `:` and `#`.
abbrev pub NoMark : Text → Type 0
NoMark s =
    (count b'@' s ≡ 0)
    × (count b'/' s ≡ 0)
    × (count b'?' s ≡ 0)
    × (count b':' s ≡ 0)
    × (count b'#' s ≡ 0)

-- The URL holds the user name and the password, each with none of `@`, `/`, `?`, `:` and `#`, and
-- each read back as it was configured.
pub postgres_url-userinfo :
    (cfg : ProviderConfig) (q : Dict Text Text)
    → (username : Text) × (password : Text) × (rest : Text) × (postgres_url cfg q
        ≡ text "postgres://" ++ (username ++ (text ":" ++ (password ++ (text "@" ++ rest)))))
      × NoMark username
      × NoMark password
      × (unescape user_password username ≡ cfg.username)
      × (unescape user_password password ≡ cfg.password)
unfolding postgres_url url_string
postgres_url-userinfo cfg q = (
  escape user_password cfg.username,
  escape user_password cfg.password,
  escape host_part (host_port 5432 cfg)
      ++ (escape path_part (b'/' ∷ cfg.database) ++ (text "?" ++ encode_values q)),
  refl,
  user_password-marks cfg.username,
  user_password-marks cfg.password,
  unescape-escape user_password cfg.username,
  unescape-escape user_password cfg.password,
)
