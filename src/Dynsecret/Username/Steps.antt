-- ===== src/Dynsecret/Username/Steps.antt =====
-- What a round of each loop takes away from the template.
use kryptic_k8s_operator.Base.Dict.{Dict}
use kryptic_k8s_operator.Base.{
  ℕ, ◌+◌, ◌≤◌, ◌<◌, ◌≡◌, refl, ◌⊎◌, inl, inr, false, some, Option-cases, List, [], ◌∷◌, ◌++◌, All,
  Text, text, arith, ℕ-cases, nat_eq, ℕ_discrete,
}
use kryptic_k8s_operator.Strings.{trim_space}
use kryptic_k8s_operator.Strings.Find.{cut, cut-append}
use kryptic_k8s_operator.Strings.Fields.{fields, atoi}
use kryptic_k8s_operator.Strings.Count.{
  count, count-append, count-take, count-trim_space, fields-AtMost, count-replace_all,
}
use kryptic_k8s_operator.Dynsecret.Quoted.{
  quotes, split_quoted, split_quoted-NoQuote, split_quoted-no_space,
}
use kryptic_k8s_operator.Dynsecret.Sanitize.{is_kept}
use kryptic_k8s_operator.Dynsecret.Username.Plain.{PlainTokens, count-resolve_arg}
use kryptic_k8s_operator.Dynsecret.Username.{
  find_call, unary_step, truncate_step, truncated, kept_length, last_part, replace_step, replaced,
  resolve_arg,
}

pub brace_lem : is_kept b'{' ≡ false
unfolding is_kept ℕ_discrete
brace_lem = refl

-- The counts of what `find_call` finds.
pub count-find_call :
    (c : ℕ) (opening source before inner after : Text)
    → find_call opening source ≡ some (before, inner, after)
    → count c before + count c opening + count c inner + count c (text "}}") + count c after
      ≡ count c source
unfolding find_call
count-find_call c opening source before inner after e = elim (Option-cases (cut opening source)) [
  | inl nowhere ↦ ground arith
  | inr ((b, behind), opened) ↦ elim (Option-cases (cut (text "}}") behind)) [
    | inl open_ended ↦ ground arith
    | inr ((i, a), closed) ↦
        let whole = cut-append opening source b behind opened in
        let tail = cut-append (text "}}") behind i a closed in
        let same_b : b ≡ before = ground arith in
        let same_i : i ≡ inner = ground arith in
        let same_a : a ≡ after = ground arith in
        rw (whole, tail, ← same_b, ← same_i, ← same_a)
          (omega (
            arith,
            count-append c b (opening ++ (i ++ (text "}}" ++ a))),
            count-append c opening (i ++ (text "}}" ++ a)),
            count-append c i (text "}}" ++ a),
            count-append c (text "}}") a,
          ))
  ]
]

pub count_around :
    (c : ℕ) (before out after : Text)
    → count c (before ++ (out ++ after)) ≡ count c before + count c out + count c after
count_around c before out after =
    omega (arith, count-append c before (out ++ after), count-append c out after)

-- The braces of the opening of a function are gone.
opening_braces : (name : Text) → 2 ≤ count b'{' (text "{{" ++ (name ++ text " "))
unfolding text
opening_braces name = ground arith

pub unary_step-lt :
    (name : Text) (apply : Text → Text) (tokens : Dict Text Text) (source next : Text)
    → ((s : Text) → count b'{' (apply s) ≤ count b'{' s)
    → PlainTokens tokens
    → unary_step name apply tokens source ≡ some next
    → count b'{' next < count b'{' source
unfolding unary_step
unary_step-lt name apply tokens source next keeps plain e =
    elim (Option-cases (find_call (text "{{" ++ (name ++ text " ")) source)) [
      | inl nowhere ↦ ground arith
      | inr ((b, i, a), found) ↦
          let value : Text = resolve_arg tokens (trim_space i) in
          let same : b ++ (apply value ++ a) ≡ next = ground arith in
          rw (← same) (
            omega (
              arith,
              count_around b'{' b (apply value) a,
              keeps value,
              count-resolve_arg b'{' tokens (trim_space i) brace_lem plain,
              count-trim_space b'{' i,
              count-find_call b'{' (text "{{" ++ (name ++ text " ")) source b i a found,
              opening_braces name,
            ))
    ]

truncated-le :
    (tokens : Dict Text Text) (n : ℕ) (parts : List Text)
    → PlainTokens tokens
    → All (λ part. count b'{' part ≤ n) parts
    → count b'{' (truncated tokens parts) ≤ n
unfolding truncated
truncated-le tokens n [] plain few = omega arith
truncated-le tokens n (part ∷ []) plain few =
    omega (arith, few.0, count-resolve_arg b'{' tokens part brace_lem plain)
truncated-le tokens n (part ∷ second ∷ parts) plain few = omega (
  arith,
  few.0,
  count-resolve_arg b'{' tokens part brace_lem plain,
  count-take b'{' (kept_length (atoi (last_part second parts)) (resolve_arg tokens part))
      (resolve_arg tokens part),
)

truncate_braces : 2 ≤ count b'{' (text "{{truncate ")
unfolding text
truncate_braces = ground arith

pub truncate_step-lt :
    (tokens : Dict Text Text) (source next : Text)
    → PlainTokens tokens
    → truncate_step tokens source ≡ some next
    → count b'{' next < count b'{' source
unfolding truncate_step
truncate_step-lt tokens source next plain e =
    elim (Option-cases (find_call (text "{{truncate ") source)) [
      | inl nowhere ↦ ground arith
      | inr ((b, i, a), found) ↦
          let parts : List Text = fields (trim_space i) in
          let same : b ++ (truncated tokens parts ++ a) ≡ next = ground arith in
          rw (← same) (
            omega (
              arith,
              count_around b'{' b (truncated tokens parts) a,
              truncated-le tokens (count b'{' (trim_space i)) parts plain
                  (fields-AtMost b'{' (trim_space i)),
              count-trim_space b'{' i,
              count-find_call b'{' (text "{{truncate ") source b i a found,
              truncate_braces,
            ))
    ]

replaced-none :
    (c : ℕ) (tokens : Dict Text Text) (args : List Text)
    → is_kept c ≡ false
    → PlainTokens tokens
    → All (λ arg. count c arg ≡ 0) args
    → count c (replaced tokens args) ≡ 0
unfolding replaced
replaced-none c tokens [] e plain none_of = count-replace_all c [] [] [] refl refl
replaced-none c tokens (value ∷ []) e plain none_of =
    count-replace_all c (resolve_arg tokens value) [] [] refl
      (omega (arith, none_of.0, count-resolve_arg c tokens value e plain))
replaced-none c tokens (value ∷ old ∷ []) e plain none_of =
    count-replace_all c (resolve_arg tokens value) old [] refl
      (omega (arith, none_of.0, count-resolve_arg c tokens value e plain))
replaced-none c tokens (value ∷ old ∷ new ∷ rest) e plain none_of =
    count-replace_all c (resolve_arg tokens value) old new none_of.1.1.0
      (omega (arith, none_of.0, count-resolve_arg c tokens value e plain))

All-of {ℓ κ μ} :
    {A : Type ℓ} (P : A → Type κ) (Q : A → Type μ) (xs : List A)
    → ((x : A) → P x → Q x)
    → All P xs
    → All Q xs
All-of P Q [] f all = tt
All-of P Q (x ∷ xs) f all = (f x all.0, All-of P Q xs f all.1)

quote_lem : (is_kept 39 ≡ false) × (is_kept 34 ≡ false) × (is_kept 32 ≡ false)
unfolding is_kept ℕ_discrete
quote_lem = (refl, refl, refl)

replaced-quotes :
    (tokens : Dict Text Text) (input : Text)
    → PlainTokens tokens
    → quotes (replaced tokens (split_quoted input)) ≡ 0
replaced-quotes tokens input plain =
    let no_quote = split_quoted-NoQuote input in
    omega (
      arith,
      replaced-none 39 tokens (split_quoted input) quote_lem.0 plain
          (All-of _ (λ arg. count 39 arg ≡ 0) (split_quoted input) (λ arg e. omega arith) no_quote),
      replaced-none 34 tokens (split_quoted input) quote_lem.1 plain
          (All-of _ (λ arg. count 34 arg ≡ 0) (split_quoted input) (λ arg e. omega arith) no_quote),
    )

replace_opening :
    (count 39 (text "{{replace ") ≡ 0)
    × (count 34 (text "{{replace ") ≡ 0)
    × (1 ≤ count 32 (text "{{replace "))
unfolding text
replace_opening = ground arith

-- A round of `replace` takes a quote away; or, of those that have none, a space.
pub replace_step-lt :
    (tokens : Dict Text Text) (source next : Text)
    → PlainTokens tokens
    → replace_step tokens source ≡ some next
    → (quotes next < quotes source)
      ⊎ ((quotes next ≡ quotes source) × (count 32 next < count 32 source))
unfolding replace_step
replace_step-lt tokens source next plain e =
    elim (Option-cases (find_call (text "{{replace ") source)) [
      | inl nowhere ↦ ground arith
      | inr ((b, i, a), found) ↦
          let input : Text = trim_space i in
          let out : Text = replaced tokens (split_quoted input) in
          let same : b ++ (out ++ a) ≡ next = ground arith in
          let no_quote = replaced-quotes tokens input plain in
          let at = λ (c : ℕ). count-find_call c (text "{{replace ") source b i a found in
          elim (ℕ-cases (quotes i)) [
            | inr (k, some_quote) ↦ inl (
                rw (← same) (
                  omega (
                    arith,
                    no_quote,
                    at 39,
                    at 34,
                    count_around 39 b out a,
                    count_around 34 b out a,
                  )))
            | inl unquoted ↦
                let bare : quotes input ≡ 0 =
                  omega (arith, count-trim_space 39 i, count-trim_space 34 i) in
                let no_space =
                  replaced-none 32 tokens (split_quoted input) quote_lem.2 plain
                    (split_quoted-no_space input bare) in
                rw (← same) (
                  ground (
                    arith,
                    no_quote,
                    no_space,
                    at 39,
                    at 34,
                    at 32,
                    count_around 39 b out a,
                    count_around 34 b out a,
                    count_around 32 b out a,
                    replace_opening,
                  ))
          ]
    ]
