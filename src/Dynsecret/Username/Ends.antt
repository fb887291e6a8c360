-- ===== src/Dynsecret/Username/Ends.antt =====
-- The ends of the loops of the templates, within the rounds that are counted.
use kryptic_k8s_operator.Base.Dict.{Dict}
use kryptic_k8s_operator.Base.{
  ℕ, zero, suc, ◌≤◌, ◌<◌, ◌≡◌, refl, ap, ◌⊎◌, inl, inr, Bool-cases, Option, none, some,
  Option-cases, ◌++◌, Text, text, text_eq, nat_eq, arith, ltb,
}
use kryptic_k8s_operator.Strings.{trim_space}
use kryptic_k8s_operator.Strings.Find.{cut, cut-append}
use kryptic_k8s_operator.Strings.Fields.{fields}
use kryptic_k8s_operator.Strings.Count.{count}
use kryptic_k8s_operator.Dynsecret.Quoted.{quotes}
use kryptic_k8s_operator.Dynsecret.Username.Plain.{Plain, PlainTokens, count_of_Plain}
use kryptic_k8s_operator.Dynsecret.Username.Steps.{
  unary_step-lt, truncate_step-lt, replace_step-lt, count_around, brace_lem,
}
use kryptic_k8s_operator.Dynsecret.Username.{
  TextCase, Draw, repeat, fill_random, random_step, replace_random_n, random_length, unary_step,
  apply_unary, truncate_step, apply_truncate, replace_step, replace_rounds, apply_replace,
}

-- The loop of this body ends, from the first state in the second: some rounds lead there, and no
-- further round is made.
pub data Ends {ℓ} {S : Type ℓ} (step : S → Option S) : S → S → Type ℓ where
  stop : {s t : S} → step s ≡ none → s ≡ t → Ends step s t
  round : {s next t : S} → step s ≡ some next → Ends step next t → Ends step s t

-- With a measure that falls in each round, as many rounds as it says are enough.
repeat-Ends {ℓ} :
    {S : Type ℓ} (step : S → Option S) (measure : S → ℕ)
    → ((s next : S) → step s ≡ some next → measure next < measure s)
    → (rounds : ℕ) (s : S) → measure s ≤ rounds
    → Ends step s (repeat rounds step s)
unfolding repeat
repeat-Ends step measure falls zero s enough = elim (Option-cases (step s)) [
  | inl done ↦ stop done refl
  | inr (next, more) ↦ absurd (omega (arith, falls s next more))
]
repeat-Ends step measure falls (suc rounds) s enough = elim (Option-cases (step s)) [
  | inl done ↦ stop done (rw (done, repeat) refl)
  | inr (next, more) ↦ round more (
      rw (more, repeat)
        (repeat-Ends step measure falls rounds next (omega (arith, falls s next more))))
]

module _ (tokens : Dict Text Text) (plain : PlainTokens tokens) where
  replace_rounds-Ends :
      (q k : ℕ) (source : Text)
      → quotes source ≤ q
      → (quotes source < q) ⊎ (count 32 source ≤ k)
      → Ends (replace_step tokens) source (replace_rounds q k tokens source)
  unfolding replace_rounds
  replace_rounds-Ends zero zero source hq hk = elim (Option-cases (replace_step tokens source)) [
    | inl done ↦ stop done refl
    | inr (next, more) ↦ absurd (ground (arith, replace_step-lt tokens source next plain more))
  ]
  replace_rounds-Ends zero (suc k) source hq hk = elim (Option-cases (replace_step tokens source)) [
    | inl done ↦ stop done (rw (done, replace_rounds) refl)
    | inr (next, more) ↦
        let falls = replace_step-lt tokens source next plain more in
        round more (
          rw (more, replace_rounds) (replace_rounds-Ends zero k next (ground arith) (ground arith)))
  ]
  replace_rounds-Ends (suc q) zero source hq hk = elim (Option-cases (replace_step tokens source)) [
    | inl done ↦ stop done (rw (done, replace_rounds) refl)
    | inr (next, more) ↦
        let falls = replace_step-lt tokens source next plain more in
        round more (
          rw (more, replace_rounds)
            (replace_rounds-Ends q (count 32 next) next (ground arith) (inr (omega arith))))
  ]
  replace_rounds-Ends (suc q) (suc k) source hq hk =
      elim (Option-cases (replace_step tokens source)) [
        | inl done ↦ stop done (rw (done, replace_rounds) refl)
        | inr (next, more) ↦
            let falls = replace_step-lt tokens source next plain more in
            elim (Bool-cases (ltb (quotes next) (quotes source))) [
              | inl fewer ↦ round more (
                  rw (more, fewer, replace_rounds)
                    (replace_rounds-Ends q (count 32 next) next (ground arith) (inr (omega arith))))
              | inr same ↦ round more (
                  rw (more, same, replace_rounds)
                    (replace_rounds-Ends (suc q) k next (ground arith) (ground arith)))
            ]
      ]

  -- Each loop of `applyFunctions` ends on every source, where the tokens are plain and the change
  -- of case makes no brace: the result is where Go's loop stops.
  pub apply_functions_end :
      (C : TextCase)
      → ((s : Text) → count b'{' (C.to_upper s) ≤ count b'{' s)
      → ((s : Text) → count b'{' (C.to_lower s) ≤ count b'{' s)
      → (source : Text)
      → Ends
          (unary_step (text "uppercase") C.to_upper tokens)
          source
          (apply_unary (text "uppercase") C.to_upper tokens source)
        × Ends
            (unary_step (text "lowercase") C.to_lower tokens)
            source
            (apply_unary (text "lowercase") C.to_lower tokens source)
        × Ends (truncate_step tokens) source (apply_truncate tokens source)
        × Ends (replace_step tokens) source (apply_replace tokens source)
  unfolding apply_unary apply_truncate apply_replace
  apply_functions_end C upper lower source = (
    repeat-Ends _ (count b'{')
        (λ s next e. unary_step-lt (text "uppercase") C.to_upper tokens s next upper plain e) _
        source (omega arith),
    repeat-Ends _ (count b'{')
        (λ s next e. unary_step-lt (text "lowercase") C.to_lower tokens s next lower plain e) _
        source (omega arith),
    repeat-Ends _ (count b'{') (λ s next e. truncate_step-lt tokens s next plain e) _ source
        (omega arith),
    replace_rounds-Ends _ _ source (omega arith) (inr (omega arith)),
  )

random_opening : (1 ≤ count b'{' (text "{{random ")) × (1 ≤ count b'{' (text "{{ random "))
unfolding text
random_opening = ground arith

module _ {State : Type 0} (random_string : Draw State)
    (letters : (n : ℕ) (st : State) → Plain (random_string n st).0) where
  fill_random-lt :
      (opening name source before behind : Text) (st : State) (next : Text × State)
      → 1 ≤ count b'{' opening
      → cut opening source ≡ some (before, behind)
      → fill_random random_string name before behind st ≡ some next
      → count b'{' next.0 < count b'{' source
  unfolding fill_random
  fill_random-lt opening name source before behind st next some_brace opened e =
      elim (Option-cases (cut (text "}}") behind)) [
        | inl open_ended ↦ ground arith
        | inr ((i, a), closed) ↦
            let length_of : ℕ = random_length (fields (trim_space (name ++ i))) in
            let drawn : Text = (random_string length_of st).0 in
            let same : before ++ (drawn ++ a) ≡ next.0 = ground arith in
            let whole = ap (count b'{') (cut-append opening source before behind opened) in
            let tail = ap (count b'{') (cut-append (text "}}") behind i a closed) in
            rw (← same) (
              omega (
                arith,
                whole,
                tail,
                count_around b'{' before drawn a,
                count_around b'{' before opening behind,
                count_around b'{' i (text "}}") a,
                count_of_Plain b'{' drawn brace_lem (letters length_of st),
              ))
      ]

  random_step-lt :
      (s next : Text × State)
      → random_step random_string s ≡ some next
      → count b'{' next.0 < count b'{' s.0
  unfolding random_step
  random_step-lt (source, st) next e = elim (Option-cases (cut (text "{{random ") source)) [
    | inr ((before, behind), opened) ↦
        fill_random-lt (text "{{random ") (text "random ") source before behind st next
          random_opening.0 opened (ground arith)
    | inl nowhere ↦ elim (Option-cases (cut (text "{{ random ") source)) [
      | inl no_token ↦ ground arith
      | inr ((before, behind), opened) ↦
          fill_random-lt (text "{{ random ") (text " random ") source before behind st next
            random_opening.1 opened (ground arith)
    ]
  ]

  -- `replaceRandomN` ends on every source, where what is drawn has letters and digits only.
  pub replace_random_n-Ends :
      (source : Text) (st : State)
      → Ends (random_step random_string) (source, st) (replace_random_n random_string source st)
  unfolding replace_random_n
  replace_random_n-Ends source st =
      repeat-Ends _ (λ s. count b'{' s.0) random_step-lt _ (source, st) (omega arith)
