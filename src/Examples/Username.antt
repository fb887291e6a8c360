-- ===== src/Examples/Username.antt =====
-- The template engine at concrete inputs.
use mathlib.Core.List.{reverse}
use kryptic_k8s_operator.Dynsecret.Provider.{Order}
use kryptic_k8s_operator.Base.{
  map, ℕ, zero, suc, ◌≤◌, ◌≡◌, refl, ◌≢◌, true, [], ◌∷◌, Text, text, ◌==◌, text_eq, nat_eq, arith,
  if◌then◌else◌, ℕ_discrete,
}
use kryptic_k8s_operator.Base.Dict
use kryptic_k8s_operator.Strings.{to_lower_byte, trim_space}
use kryptic_k8s_operator.Strings.Count.{count}
use kryptic_k8s_operator.Strings.Find.{cut, replace_all, rune_width}
use kryptic_k8s_operator.Strings.Fields.{fields, atoi}
use kryptic_k8s_operator.Dynsecret.Quoted.{split_quoted}
use kryptic_k8s_operator.Dynsecret.Sanitize.{is_kept, sanitize}
use kryptic_k8s_operator.Dynsecret.Username.{
  TextCase, Draw, repeat, replace_tokens, tokens_of, template_of, random_step, replace_random_n,
  random_length, resolve_arg, find_call, unary_step, apply_unary, truncated, truncate_step,
  apply_truncate, replaced, replace_step, apply_replace, apply_functions, render_username,
  replace_each,
}
use kryptic_k8s_operator.Dynsecret.Username.Plain.{Plain}
use kryptic_k8s_operator.Dynsecret.Username.Rendered.{
  IsRandom, KeepsBraces, Rendering, render_username_ends,
}

-- The entropy is a number, and every character a `q`.
abbrev letters_of : ℕ → Text
letters_of zero = []
letters_of (suc n) = b'q' ∷ letters_of n

abbrev random_string : Draw ℕ
random_string n st = (letters_of n, suc st)

-- Of ASCII letters.
abbrev lower : Text → Text
lower = map to_lower_byte

abbrev pub case_of : TextCase
case_of = record { to_upper = λ s. s; to_lower = lower }

q-is_kept : is_kept b'q' ≡ true
unfolding is_kept ℕ_discrete
q-is_kept = refl

letters_of-Plain : (n : ℕ) → Plain (letters_of n)
letters_of-Plain zero = tt
letters_of-Plain (suc n) = (q-is_kept, letters_of-Plain n)

letters_of-ne-nil : (n : ℕ) → n ≢ 0 → letters_of n ≢ []
letters_of-ne-nil zero h e = h refl
letters_of-ne-nil (suc n) h e = cc

random_string-IsRandom : IsRandom random_string
random_string-IsRandom = record {
  letters = λ n st. letters_of-Plain n;
  some_letter = λ n st. letters_of-ne-nil n;
}

lower-count : (s : Text) → count b'{' (lower s) ≤ count b'{' s
unfolding to_lower_byte
lower-count [] = omega arith
lower-count (a ∷ s) = ground (arith, lower-count s)

case_of-KeepsBraces : KeepsBraces case_of
case_of-KeepsBraces = record { upper = λ s. omega arith; lower = lower-count }

-- One order among many.
abbrev backwards : Order
backwards vars = reverse vars

render_username_ends_example :
    (rendered : Text) × Rendering case_of random_string
      (tokens_of (letters_of 32) 7 (text "Ada Lovelace") (text "APP_DB") (text "postgres"))
      (
        replace_tokens backwards
            (tokens_of (letters_of 32) 7 (text "Ada Lovelace") (text "APP_DB") (text "postgres"))
            (template_of (text "{{truncate identity.name 4}}_{{random 6}}")),
        1,
      )
      rendered
      (render_username backwards case_of random_string 7
        (text "{{truncate identity.name 4}}_{{random 6}}")
        (text "Ada Lovelace")
        (text "APP_DB")
        (text "postgres")
        0).1
    × ((render_username backwards case_of random_string 7
          (text "{{truncate identity.name 4}}_{{random 6}}")
          (text "Ada Lovelace")
          (text "APP_DB")
          (text "postgres")
          0).0
        ≡ (if rendered == [] then letters_of 32 else rendered))
    × ((render_username backwards case_of random_string 7
          (text "{{truncate identity.name 4}}_{{random 6}}")
          (text "Ada Lovelace")
          (text "APP_DB")
          (text "postgres")
          0).0
        ≢ [])
render_username_ends_example =
    render_username_ends backwards case_of case_of-KeepsBraces random_string random_string-IsRandom
      7 (text "{{truncate identity.name 4}}_{{random 6}}") (text "Ada Lovelace") (text "APP_DB")
      (text "postgres") 0

renders :
    (render_username backwards case_of random_string 7
      (text "{{truncate identity.name 4}}_{{random 6}}")
      (text "Ada Lovelace")
      (text "APP_DB")
      (text "postgres")
      0).0
    ≡ text "AdaL_qqqqqq"
unfolding render_username tokens_of replace_tokens replace_each replace_random_n random_step
    random_length repeat apply_functions apply_unary unary_step apply_truncate truncate_step
    truncated apply_replace replace_step replaced resolve_arg find_call cut replace_all fields atoi
    trim_space split_quoted sanitize is_kept Dict.lookup text text_eq ℕ_discrete to_lower_byte
renders = refl

nests :
    apply_functions case_of [] (text "{{lowercase {{lowercase AB}}}}-{{replace 'a b' ' ' _}}")
    ≡ text "ab-a_b"
unfolding repeat apply_functions apply_unary unary_step apply_truncate truncate_step truncated
    apply_replace replace_step replaced resolve_arg find_call cut replace_all fields atoi trim_space
    split_quoted Dict.lookup text text_eq ℕ_discrete to_lower_byte rune_width
nests = refl
