-- ===== src/Dynsecret/Sql.antt =====
-- internal/dynsecret/sql.go and oracle.go, over the operating system's temporary files and
-- `database/sql` with its drivers.
pub mod Dsn
pub mod Providers
pub mod Security
pub mod Verified
pub mod Parameters
pub mod Userinfo
pub mod Statements
use kryptic_k8s_operator.Base.Int.{pos}
use kryptic_k8s_operator.Base.{
  ℕ, Bool, List, [], ◌∷◌, ◌++◌, Text, text, ◌==◌, text_eq, if◌then◌else◌, leb, length, take,
}
use kryptic_k8s_operator.Strings.{trim_space, split}
use kryptic_k8s_operator.Strings.Fields.{fields, join}
use kryptic_k8s_operator.Errors.{GoError, wrap, Step, Result, ok, err, ◌>>=◌, ◌>>◌, return}
use kryptic_k8s_operator.Dynsecret.Provider.{Minted}
use kryptic_k8s_operator.Dynsecret.Templates.{
  ProviderConfig, Work, render_statements, statement_vars,
}

-- `os.CreateTemp`, which gives the name of the file that it opens, and what is done with the file.
pub record TempFiles (State : Type 0) : Type 0 where
  pub create_temp : Step State Text
  pub write_string : Text → Text → Step State (Unit {0})
  pub close_file : Text → Step State (Unit {0})
  pub remove : Text → State → State

-- `sql.Open` and the methods of a `*sql.DB`.
pub record Databases (State : Type 0) : Type 1 where
  pub Db : Type 0
  pub sql_open : Text → Text → Step State Db
  pub ping : Db → Step State (Unit {0})
  pub exec : Db → Text → Step State (Unit {0})
  pub close_db : Db → State → State

-- What is not empty of the trimmed parts: the loop of `splitStatements`.
unfoldable pub trimmed_statements : List Text → List Text
trimmed_statements [] = []
trimmed_statements (part ∷ parts) =
    let rest = trimmed_statements parts in
    if trim_space part == [] then rest else trim_space part ∷ rest

-- `splitStatements`
unfoldable pub split_statements : Text → List Text
unfolding trimmed_statements
split_statements script = trimmed_statements (split b';' script)

-- `truncate`
unfoldable pub truncate : Text → ℕ → Text
truncate s n =
    let line = join (text " ") (fields s) in
    if leb (length line) n then line else take n line ++ text "..."

-- A deferred call: it is made on every path, after what it is deferred from.
abbrev pub deferred {ℓ} :
    {State : Type 0} {A : Type ℓ} → (State → State) → Step State A → Step State A
deferred cleanup m s = let (r, s') = m s in (r, cleanup s')

-- What a mint returns once its script ran.
abbrev pub minted_by : Work → Minted
minted_by work = record {
  username = work.username;
  password = work.password;
  session_token = [];
  access_key_id = [];
  url = [];
}

module _ {State : Type 0} (D : Databases State) where
  -- The loop over the statements.
  unfoldable pub exec_all : D.Db → List Text → Step State (Unit {0})
  unfolding truncate
  exec_all db [] s = (ok tt, s)
  exec_all db (stmt ∷ rest) s =
      let (r, s') = D.exec db stmt s in
      elim r [
        | err e ↦ (err (wrap (truncate stmt 80 ++ text ": ") e), s')
        | ok done ↦ exec_all db rest s'
      ]

  -- `runSQL`
  unfoldable pub run_sql : Text → Text → Text → Step State (Unit {0})
  run_sql driver dsn script = D.sql_open driver dsn >>= λ db.
      deferred (D.close_db db) (D.ping db >> exec_all db (split_statements script))

-- `writeTempCA`: the path and the cleanup.
unfoldable pub write_temp_ca :
    {State : Type 0} → TempFiles State → Text → Step State (Text × (State → State))
write_temp_ca F ca s =
    if trim_space ca == []
    then (ok ([], λ t. t), s)
    else (let (created, s1) = F.create_temp s in
        elim created [
          | err e ↦ (err e, s1)
          | ok name ↦
              let (written, s2) = F.write_string name ca s1 in
              elim written [
                | err e ↦ (err e, F.remove name (F.close_file name s2).1)
                | ok _ ↦
                    let (closed, s3) = F.close_file name s2 in
                    elim closed [
                      | err e ↦ (err e, F.remove name s3)
                      | ok _ ↦ (ok (name, F.remove name), s3)
                    ]
              ]
        ])
