-- ===== src/Dynsecret/Redis/Commands.antt =====
-- Which commands of a script are sent, and what is said when one fails.
use kryptic_k8s_operator.Base.{
  ◌≡◌, refl, ap, List, [], ◌∷◌, ◌++◌, Text, text, ◌==◌, text_eq, arith, Bool-cases, inl, inr,
  if◌then◌else◌,
}
use kryptic_k8s_operator.Strings.{trim_space, split}
use kryptic_k8s_operator.Strings.Fields.{fields}
use kryptic_k8s_operator.Errors.{GoError, wrap, Step, ok, err, Result-cases}
use kryptic_k8s_operator.Dynsecret.Redis.{RedisLibrary, redis_lines, redis_do}

-- The lines that are commands.
unfoldable pub commands : List Text → List Text
commands [] = []
commands (raw ∷ rest) =
    let others = commands rest in if trim_space raw == [] then others else trim_space raw ∷ others

module _ {State : Type 0} (R : RedisLibrary State) where
  -- Commands in order until one fails. The error names the command, whole, before its cause.
  unfoldable pub send_all : R.Conn → List Text → Step State (Unit {0})
  send_all client [] s = (ok tt, s)
  send_all client (line ∷ rest) s =
      let (r, s') = R.send_command client (fields line) s in
      elim r [ err e ↦ (err (wrap (line ++ text ": ") e), s') | ok done ↦ send_all client rest s' ]

  redis_lines-send_all :
      (client : R.Conn) (lines : List Text) (s : State)
      → redis_lines R client lines s ≡ send_all client (commands lines) s
  unfolding redis_lines send_all commands
  redis_lines-send_all client [] s = refl
  redis_lines-send_all client (raw ∷ rest) s = elim (Bool-cases (trim_space raw == [])) [
    | inl blank ↦ ground (arith, redis_lines-send_all client rest s)
    | inr command ↦ elim (Result-cases (R.send_command client (fields (trim_space raw)) s).0) [
      | inl (e, failed) ↦ ground arith
      | inr (_, done) ↦ ground (
        arith,
        redis_lines-send_all client rest (R.send_command client (fields (trim_space raw)) s).1,
      )
    ]
  ]

  -- The command that failed, after those that did not.
  abbrev FailedAt : R.Conn → List Text → State → GoError → Type 0
  FailedAt client cmds s e =
      (before : List Text) × (line : Text) × (after : List Text) × (cause : GoError) × (cmds
        ≡ before ++ line ∷ after)
      × ((send_all client before s).0 ≡ ok tt)
      × ((R.send_command client (fields line) (send_all client before s).1).0 ≡ err cause)
      × (e ≡ wrap (line ++ text ": ") cause)

  send_all-cons :
      (client : R.Conn) (line : Text) (rest : List Text) (s : State)
      → (R.send_command client (fields line) s).0 ≡ ok tt
      → send_all client (line ∷ rest) s
        ≡ send_all client rest (R.send_command client (fields line) s).1
  unfolding send_all
  send_all-cons client line rest s done = ground arith

  send_all-err :
      (client : R.Conn) (cmds : List Text) (s : State) (e : GoError)
      → (send_all client cmds s).0 ≡ err e
      → FailedAt client cmds s e
  unfolding send_all
  send_all-err client [] s e failed = ground arith
  send_all-err client (line ∷ rest) s e failed =
      elim (Result-cases (R.send_command client (fields line) s).0) [
        | inl (cause, refused) ↦ ([], line, rest, cause, refl, refl, refused, ground arith)
        | inr (_, done) ↦
            let (before, culprit, after, cause, parts, fine, refused, is) =
              send_all-err client rest (R.send_command client (fields line) s).1 e (ground arith) in
            (
              line ∷ before,
              culprit,
              after,
              cause,
              ap (λ cmds. line ∷ cmds) parts,
              rw (send_all-cons client line before s done) fine,
              rw (send_all-cons client line before s done) refused,
              is,
            )
      ]

  -- If a script fails, it fails at one of its commands, after those before it have run. The error
  -- is that command in full, before what the server says of it.
  pub redis_do-err :
      (client : R.Conn) (script : Text) (s : State) (e : GoError)
      → (redis_do R client script s).0 ≡ err e
      → (before : List Text) × (line : Text) × (after : List Text) × (cause : GoError) × (commands
            (split 10 script)
          ≡ before ++ line ∷ after)
        × ((send_all client before s).0 ≡ ok tt)
        × ((R.send_command client (fields line) (send_all client before s).1).0 ≡ err cause)
        × (e ≡ wrap (line ++ text ": ") cause)
  unfolding redis_do
  redis_do-err client script s e failed =
      send_all-err client (commands (split 10 script)) s e
        (ground (arith, redis_lines-send_all client (split 10 script) s))
