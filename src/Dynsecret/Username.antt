-- ===== src/Dynsecret/Username.antt =====
-- internal/dynsecret/username.go: `RenderUsername`. Each of Go's `for` loops is its body as a step,
-- which stops with none, and a loop over rounds that are counted beforehand.
pub mod Plain
pub mod Steps
pub mod Ends
pub mod Rendered
use kryptic_k8s_operator.Dynsecret.Provider.{Order}
use kryptic_k8s_operator.Base.Int.{ℤ, pos, negsuc}
use kryptic_k8s_operator.Base.Dict
use kryptic_k8s_operator.Base.Dict.{Dict}
use kryptic_k8s_operator.Base.{
  ℕ, zero, suc, ◌/◌, Bool, true, false, Option, none, some, List, [], ◌∷◌, ◌++◌, Text, text, ◌==◌,
  text_eq, if◌then◌else◌, ltb, length, take,
}
use kryptic_k8s_operator.Strings.{trim_space, decimal}
use kryptic_k8s_operator.Strings.Find.{cut, replace_all}
use kryptic_k8s_operator.Strings.Fields.{fields, atoi}
use kryptic_k8s_operator.Strings.Count.{count}
use kryptic_k8s_operator.Dynsecret.Quoted.{split_quoted, quotes}
use kryptic_k8s_operator.Dynsecret.Sanitize.{sanitize}

-- `strings.ToUpper` and `strings.ToLower`.
pub record TextCase : Type 0 where
  pub to_upper : Text → Text
  pub to_lower : Text → Text

-- `RandomString`, on what the entropy is.
abbrev pub Draw : Type 0 → Type 0
Draw State = ℕ → State → Text × State

-- The rounds of a loop.
unfoldable pub repeat {ℓ} : {S : Type ℓ} → ℕ → (S → Option S) → S → S
repeat zero step s = s
repeat (suc rounds) step s = elim (step s) [ none ↦ s | some s' ↦ repeat rounds step s' ]

-- `replaceToken`
unfoldable pub replace_token : Text → Text → Text → Text
replace_token source name value =
    replace_all (replace_all source (text "{{" ++ (name ++ text "}}")) value)
      (text "{{ " ++ (name ++ text " }}")) value

-- The loop of `RenderUsername` over the tokens, in the order in which they are visited.
unfoldable pub replace_each : Dict Text Text → Text → Text
unfolding replace_token
replace_each [] rendered = rendered
replace_each ((name, value) ∷ tokens) rendered =
    replace_each tokens (replace_token rendered name value)

unfoldable pub replace_tokens : Order → Dict Text Text → Text → Text
unfolding replace_each
replace_tokens order tokens rendered = replace_each (order tokens) rendered

clamp_length : ℤ → ℕ
clamp_length (pos n) = if ltb n 1 then 1 else if ltb 64 n then 64 else n
clamp_length (negsuc n) = 1

-- `n` of `replaceRandomN`, from the parts of the token.
unfoldable pub random_length : List Text → ℕ
unfolding clamp_length
random_length (name ∷ number ∷ []) = elim (atoi number) [
  | none ↦ 8
  | some parsed ↦ clamp_length parsed
]
random_length _ = 8

-- `resolveArg`
unfoldable pub resolve_arg : Dict Text Text → Text → Text
resolve_arg tokens value = elim (Dict.lookup value tokens) [ none ↦ value | some mapped ↦ mapped ]

-- What follows `open` up to the next "}}", with what stands before and after it.
unfoldable pub find_call : Text → Text → Option (Text × Text × Text)
find_call opening source = elim (cut opening source) [
  | none ↦ none
  | some (before, behind) ↦ elim (cut (text "}}") behind) [
    | none ↦ none
    | some (inner, after) ↦ some (before, inner, after)
  ]
]

module _ {State : Type 0} (random_string : Draw State) where
  -- A round of `replaceRandomN` once the token is found; `name` is what it has of `inner`.
  fill_random : Text → Text → Text → State → Option (Text × State)
  fill_random name before behind st = elim (cut (text "}}") behind) [
    | none ↦ none
    | some (inner, after) ↦
        let (drawn, st') = random_string (random_length (fields (trim_space (name ++ inner)))) st in
        some (before ++ (drawn ++ after), st')
  ]

  -- A round of `replaceRandomN`.
  unfoldable pub random_step : Text × State → Option (Text × State)
  unfolding fill_random
  random_step (source, st) = elim (cut (text "{{random ") source) [
    | some (before, behind) ↦ fill_random (text "random ") before behind st
    | none ↦ elim (cut (text "{{ random ") source) [
      | some (before, behind) ↦ fill_random (text " random ") before behind st
      | none ↦ none
    ]
  ]

  -- `replaceRandomN`
  unfoldable pub replace_random_n : Text → State → Text × State
  replace_random_n source st = repeat (count b'{' source) random_step (source, st)

-- A round of `applyUnary`.
unfoldable pub unary_step : Text → (Text → Text) → Dict Text Text → Text → Option Text
unary_step name apply tokens source = elim (find_call (text "{{" ++ (name ++ text " ")) source) [
  | none ↦ none
  | some (before, inner, after) ↦
      some (before ++ (apply (resolve_arg tokens (trim_space inner)) ++ after))
]

-- `applyUnary`
unfoldable pub apply_unary : Text → (Text → Text) → Dict Text Text → Text → Text
apply_unary name apply tokens source =
    repeat (count b'{' source) (unary_step name apply tokens) source

-- The bytes that `truncate` keeps: `n` cut off at 0 and at the length.
kept_length : Option ℤ → Text → ℕ
kept_length none value = length value
kept_length (some (negsuc n)) value = 0
kept_length (some (pos n)) value = if ltb (length value) n then length value else n

last_part : Text → List Text → Text
last_part value [] = value
last_part value (part ∷ parts) = last_part part parts

-- What `truncate` makes of its parts.
unfoldable pub truncated : Dict Text Text → List Text → Text
unfolding kept_length last_part
truncated tokens [] = []
truncated tokens (part ∷ []) = resolve_arg tokens part
truncated tokens (part ∷ second ∷ parts) =
    let value : Text = resolve_arg tokens part in
    take (kept_length (atoi (last_part second parts)) value) value

-- A round of `applyTruncate`.
unfoldable pub truncate_step : Dict Text Text → Text → Option Text
truncate_step tokens source = elim (find_call (text "{{truncate ") source) [
  | none ↦ none
  | some (before, inner, after) ↦
      some (before ++ (truncated tokens (fields (trim_space inner)) ++ after))
]

-- `applyTruncate`
unfoldable pub apply_truncate : Dict Text Text → Text → Text
apply_truncate tokens source = repeat (count b'{' source) (truncate_step tokens) source

-- What `replace` makes of its arguments; one that is missing is empty.
unfoldable pub replaced : Dict Text Text → List Text → Text
replaced tokens [] = replace_all [] [] []
replaced tokens (value ∷ []) = replace_all (resolve_arg tokens value) [] []
replaced tokens (value ∷ old ∷ []) = replace_all (resolve_arg tokens value) old []
replaced tokens (value ∷ old ∷ new ∷ rest) = replace_all (resolve_arg tokens value) old new

-- A round of `applyReplace`.
unfoldable pub replace_step : Dict Text Text → Text → Option Text
replace_step tokens source = elim (find_call (text "{{replace ") source) [
  | none ↦ none
  | some (before, inner, after) ↦
      some (before ++ (replaced tokens (split_quoted (trim_space inner)) ++ after))
]

-- The loop of `applyReplace`: the quotes that may go, and the spaces that may go until the next.
replace_rounds : ℕ → ℕ → Dict Text Text → Text → Text
replace_rounds zero zero tokens source = source
replace_rounds zero (suc k) tokens source = elim (replace_step tokens source) [
  | none ↦ source
  | some next ↦ replace_rounds zero k tokens next
]
replace_rounds (suc q) zero tokens source = elim (replace_step tokens source) [
  | none ↦ source
  | some next ↦ replace_rounds q (count 32 next) tokens next
]
replace_rounds (suc q) (suc k) tokens source = elim (replace_step tokens source) [
  | none ↦ source
  | some next ↦ elim (ltb (quotes next) (quotes source)) [
    | true ↦ replace_rounds q (count 32 next) tokens next
    | false ↦ replace_rounds (suc q) k tokens next
  ]
]

-- `applyReplace`
unfoldable pub apply_replace : Dict Text Text → Text → Text
unfolding replace_rounds
apply_replace tokens source = replace_rounds (quotes source) (count 32 source) tokens source

-- `applyFunctions`
unfoldable pub apply_functions : TextCase → Dict Text Text → Text → Text
apply_functions C tokens source = apply_replace tokens (
    apply_truncate tokens (
      apply_unary (text "lowercase") C.to_lower tokens
        (apply_unary (text "uppercase") C.to_upper tokens source)))

-- `tokens` of `RenderUsername`. `unix` is the time in seconds.
unfoldable pub tokens_of : Text → ℕ → Text → Text → Text → Dict Text Text
tokens_of random_username unix identity secret_name secret_type =
    (text "randomUsername", random_username)
    ∷ (text "unixTimestamp", decimal unix)
    ∷ (text "identity.name", sanitize identity)
    ∷ (text "dynamicSecret.name", sanitize secret_name)
    ∷ (text "dynamicSecret.type", sanitize secret_type)
    ∷ []

-- `source` of `RenderUsername`
unfoldable pub template_of : Text → Text
template_of template =
    if trim_space template == [] then text "{{randomUsername}}" else trim_space template

-- `RenderUsername`
unfoldable pub render_username :
    {State : Type 0}
    → Order
    → TextCase
    → Draw State
    → ℕ
    → Text
    → Text
    → Text
    → Text
    → State
    → Text × State
unfolding template_of
render_username order C random_string unix template identity secret_name secret_type st =
    let (random_username, st1) = random_string 32 st in
    let tokens = tokens_of random_username unix identity secret_name secret_type in
    let (drawn, st2) =
      replace_random_n random_string (replace_tokens order tokens (template_of template)) st1 in
    let rendered = apply_functions C tokens drawn in
    (if rendered == [] then random_username else rendered, st2)
