-- ===== src/Dynsecret/Username/Plain.antt =====
-- The tokens of a template, and the bytes that the templates' syntax reads.
use kryptic_k8s_operator.Base.Dict
use kryptic_k8s_operator.Base.Dict.{Dict}
use kryptic_k8s_operator.Base.{
  ℕ, zero, suc, ◌+◌, ◌/◌, ◌%◌, ◌≤◌, ◌<◌, ◌≡◌, refl, true, false, some, Option-cases, [], ◌∷◌, All,
  All-append, Text, ◌==◌, text_eq, nat_eq, arith, ltb, inl, inr, Bool-cases, subst,
}
use kryptic_k8s_operator.Strings.{decimal, decimal_digits}
use kryptic_k8s_operator.Strings.Count.{count}
use kryptic_k8s_operator.Dynsecret.Sanitize.{is_kept, sanitize_lem}
use kryptic_k8s_operator.Dynsecret.Username.{resolve_arg, tokens_of}

abbrev pub Plain : Text → Type 0
Plain = All (λ c. is_kept c ≡ true)

abbrev pub PlainTokens : Dict Text Text → Type 0
PlainTokens = All (λ (token : Text × Text). Plain token.1)

pub count_of_Plain : (c : ℕ) (s : Text) → is_kept c ≡ false → Plain s → count c s ≡ 0
count_of_Plain c [] e p = refl
count_of_Plain c (a ∷ s) e p = ground (arith, count_of_Plain c s e p.1)

digit-is_kept : (d : ℕ) → d < 10 → is_kept (48 + d) ≡ true
unfolding is_kept
digit-is_kept d h = ground arith

decimal_digits-Plain : (fuel n : ℕ) → Plain (decimal_digits fuel n)
unfolding decimal_digits
decimal_digits-Plain zero n = tt
decimal_digits-Plain (suc fuel) n = elim (Bool-cases (ltb n 10)) [
  | inl small ↦ rw (small, decimal_digits) (digit-is_kept n (ground arith), tt)
  | inr large ↦
      rw (large, decimal_digits)
        (All-append _ (decimal_digits fuel (n / 10)) _ (decimal_digits-Plain fuel (n / 10))
          (digit-is_kept (n % 10) (omega arith), tt))
]

decimal-Plain : (n : ℕ) → Plain (decimal n)
unfolding decimal
decimal-Plain n = decimal_digits-Plain (suc n) n

pub tokens_of-Plain :
    (random_username : Text) (unix : ℕ) (identity secret_name secret_type : Text)
    → Plain random_username
    → PlainTokens (tokens_of random_username unix identity secret_name secret_type)
unfolding tokens_of
tokens_of-Plain random_username unix identity secret_name secret_type plain = (
  plain,
  (
    decimal-Plain unix,
    (
      (sanitize_lem identity).0.1,
      ((sanitize_lem secret_name).0.1, ((sanitize_lem secret_type).0.1, tt)),
    ),
  ),
)

lookup-Plain :
    (tokens : Dict Text Text) (value mapped : Text)
    → PlainTokens tokens
    → Dict.lookup value tokens ≡ some mapped
    → Plain mapped
lookup-Plain [] value mapped p e = cc (Dict.lookup-nil {V = Text} value)
lookup-Plain ((name, v) ∷ tokens) value mapped p e = elim (Bool-cases (name == value)) [
  | inl here ↦
      let same : v ≡ mapped = ground (arith, Dict.lookup-cons value name v tokens) in
      subst Plain same p.0
  | inr there ↦
      lookup-Plain tokens value mapped p.1 (ground (arith, Dict.lookup-cons value name v tokens))
]

-- Resolving an argument brings in no byte but letters, digits and underscores.
pub count-resolve_arg :
    (c : ℕ) (tokens : Dict Text Text) (value : Text)
    → is_kept c ≡ false
    → PlainTokens tokens
    → count c (resolve_arg tokens value) ≤ count c value
unfolding resolve_arg
count-resolve_arg c tokens value e p = elim (Option-cases (Dict.lookup value tokens)) [
  | inl absent ↦ rw (absent, resolve_arg) (omega arith)
  | inr (mapped, found) ↦
      rw (found, resolve_arg)
        (omega (arith, count_of_Plain c mapped e (lookup-Plain tokens value mapped p found)))
]
