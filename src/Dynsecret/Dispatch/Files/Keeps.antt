-- ===== src/Dynsecret/Dispatch/Files/Keeps.antt =====
-- What a step leaves of the temporary files, by how it is put together.
use kryptic_k8s_operator.Base.{
  List, [], ◌∷◌, ◌≡◌, refl, ◌∙◌, Bool-cases, inl, inr, Text, ◌==◌, text_eq, arith,
}
use kryptic_k8s_operator.Strings.{trim_space}
use kryptic_k8s_operator.Errors.{Result-cases, Step, ◌>>=◌, ◌>>◌}
use kryptic_k8s_operator.Dynsecret.Sql.{
  TempFiles, Databases, exec_all, run_sql, split_statements, write_temp_ca, deferred,
}
use kryptic_k8s_operator.Dynsecret.Dispatch.Files.{Keeps, Owes, IsLawfulFiles, KeepsDatabases}

module _ {State : Type 0} (present : State → List Text) where
  pub Keeps-bind {ℓ κ} :
      {A : Type ℓ} {B : Type κ} (m : Step State A) (k : A → Step State B)
      → Keeps present m
      → ((a : A) → Keeps present (k a))
      → Keeps present (m >>= k)
  Keeps-bind m k first next s = elim (Result-cases (m s).0) [
    | inl (e, failed) ↦ ground (arith, first s)
    | inr (a, done) ↦ ground (arith, first s, next a (m s).1)
  ]

  pub Keeps-deferred {ℓ} :
      {A : Type ℓ} (cleanup : State → State) (m : Step State A)
      → Keeps present m
      → ((s : State) → present (cleanup s) ≡ present s)
      → Keeps present (deferred cleanup m)
  Keeps-deferred cleanup m kept clean s = clean (m s).1 ∙ kept s

  -- The cleanup is deferred until the body is done.
  pub Owes-bind {ℓ κ} :
      {A : Type ℓ} {B : Type κ} (m : Step State (A × (State → State))) (body : A → Step State B)
      → Owes present m
      → ((a : A) → Keeps present (body a))
      → Keeps present (m >>= λ (a, cleanup). deferred cleanup (body a))
  Owes-bind m body owes kept s = elim (Result-cases (m s).0) [
    | inl (e, failed) ↦ let same = (owes s).0 e failed in ground arith
    | inr ((a, cleanup), done) ↦
        let clean = (owes s).1 a cleanup done (body a (m s).1).1 (kept a (m s).1) in ground arith
  ]

  module _ (D : Databases State) (kept : KeepsDatabases present D) where
    pub exec_all-Keeps : (db : D.Db) (stmts : List Text) → Keeps present (exec_all D db stmts)
    unfolding exec_all
    exec_all-Keeps db [] s = refl
    exec_all-Keeps db (stmt ∷ rest) s = elim (Result-cases (D.exec db stmt s).0) [
      | inl (e, failed) ↦ ground (arith, kept.exec db stmt s)
      | inr (_, done) ↦
          ground (arith, kept.exec db stmt s, exec_all-Keeps db rest (D.exec db stmt s).1)
    ]

    pub run_sql-Keeps : (driver dsn script : Text) → Keeps present (run_sql D driver dsn script)
    unfolding run_sql
    run_sql-Keeps driver dsn script =
        Keeps-bind (D.sql_open driver dsn)
          (λ db. deferred (D.close_db db) (D.ping db >> exec_all D db (split_statements script)))
          (kept.sql_open driver dsn)
          λ db.
            Keeps-deferred (D.close_db db) (D.ping db >> exec_all D db (split_statements script))
              (Keeps-bind (D.ping db) (λ _. exec_all D db (split_statements script)) (kept.ping db)
                λ _. exec_all-Keeps db (split_statements script))
              (kept.close_db db)

  module _ (F : TempFiles State) (lawful : IsLawfulFiles present F) where
    pub write_temp_ca-Owes : (ca : Text) → Owes present (write_temp_ca F ca)
    unfolding write_temp_ca
    write_temp_ca-Owes ca s = elim (Bool-cases (trim_space ca == [])) [
      | inl blank ↦ (λ e failed. ground arith, λ path cleanup done t e. ground arith)
      | inr bundle ↦ elim (Result-cases (F.create_temp s).0) [
        | inl (refusal, none_made) ↦
            let same = lawful.not_created s refusal none_made in
            (λ e failed. ground arith, λ path cleanup done t e. ground arith)
        | inr (name, made) ↦
            let new = lawful.created s name made in
            let written = lawful.written name ca (F.create_temp s).1 in
            let closed = lawful.closed name (F.write_string name ca (F.create_temp s).1).1 in
            let before : present
                  (F.close_file name (F.write_string name ca (F.create_temp s).1).1).1
                ≡ name ∷ present s =
              closed ∙ written ∙ new in
            let gone =
              lawful.removed name
                (F.close_file name (F.write_string name ca (F.create_temp s).1).1).1 (present s)
                before in
            (
              λ e failed. ground (arith, gone, made),
              λ path cleanup done t e.
                  let removed : present (F.remove name t) ≡ present s =
                    lawful.removed name t (present s) (ground arith) in
                  ground arith,
            )
      ]
    ]
