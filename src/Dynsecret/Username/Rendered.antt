-- ===== src/Dynsecret/Username/Rendered.antt =====
-- `RenderUsername` as a whole.
use kryptic_k8s_operator.Dynsecret.Provider.{Order}
use kryptic_k8s_operator.Base.Dict.{Dict}
use kryptic_k8s_operator.Base.{
  ℕ, ◌≤◌, ◌≡◌, refl, ◌≢◌, [], Text, text, ◌==◌, text_eq, arith, if◌then◌else◌,
}
use kryptic_k8s_operator.Strings.Count.{count}
use kryptic_k8s_operator.Dynsecret.Username.Plain.{Plain, tokens_of-Plain}
use kryptic_k8s_operator.Dynsecret.Username.Ends.{Ends, apply_functions_end, replace_random_n-Ends}
use kryptic_k8s_operator.Dynsecret.Username.{
  TextCase, Draw, random_step, replace_random_n, unary_step, apply_unary, truncate_step,
  apply_truncate, replace_step, apply_replace, apply_functions, replace_tokens, tokens_of,
  template_of, render_username,
}

-- What is drawn has letters, digits and underscores only, and is not empty for a length that is
-- not 0.
pub record IsRandom {State : Type 0} (random_string : Draw State) : Type 0 where
  pub letters : (n : ℕ) (st : State) → Plain (random_string n st).0
  pub some_letter : (n : ℕ) (st : State) → n ≢ 0 → (random_string n st).0 ≢ []

-- Changing the case makes no brace.
pub record KeepsBraces (C : TextCase) : Type 0 where
  pub upper : (s : Text) → count b'{' (C.to_upper s) ≤ count b'{' s
  pub lower : (s : Text) → count b'{' (C.to_lower s) ≤ count b'{' s

-- The loops of `RenderUsername`, one after the other: each ends, in these texts.
pub record Rendering {State : Type 0} (C : TextCase) (random_string : Draw State)
    (tokens : Dict Text Text) (start : Text × State) (rendered : Text) (after : State)
    : Type 0 where
  pub drawn : Text
  pub raised : Text
  pub lowered : Text
  pub shortened : Text
  pub draws : Ends (random_step random_string) start (drawn, after)
  pub raises : Ends (unary_step (text "uppercase") C.to_upper tokens) drawn raised
  pub lowers : Ends (unary_step (text "lowercase") C.to_lower tokens) raised lowered
  pub shortens : Ends (truncate_step tokens) lowered shortened
  pub replaces : Ends (replace_step tokens) shortened rendered

module _ {State : Type 0} (order : Order) (C : TextCase) (keeps : KeepsBraces C)
    (random_string : Draw State) (random : IsRandom random_string) (unix : ℕ)
    (template identity secret_name secret_type : Text) (st : State) where
  -- `RenderUsername` ends on every template, also where functions nest or make new ones: each of
  -- its loops ends, and the name is what they come to, or the drawn name where that is empty. So no
  -- name is empty.
  pub render_username_ends :
      (rendered : Text) × Rendering C random_string
        (tokens_of (random_string 32 st).0 unix identity secret_name secret_type)
        (
          replace_tokens order
              (tokens_of (random_string 32 st).0 unix identity secret_name secret_type)
              (template_of template),
          (random_string 32 st).1,
        )
        rendered
        (render_username order C random_string unix template identity secret_name secret_type st).1
      × ((render_username order C random_string unix template identity secret_name secret_type st).0
          ≡ (if rendered == [] then (random_string 32 st).0 else rendered))
      × ((render_username order C random_string unix template identity secret_name secret_type st).0
          ≢ [])
  unfolding render_username apply_functions
  render_username_ends =
      let tokens : Dict Text Text =
        tokens_of (random_string 32 st).0 unix identity secret_name secret_type in
      let plain =
        tokens_of-Plain (random_string 32 st).0 unix identity secret_name secret_type
          (random.letters 32 st) in
      let start : Text = replace_tokens order tokens (template_of template) in
      let drawn : Text = (replace_random_n random_string start (random_string 32 st).1).0 in
      let raised : Text = apply_unary (text "uppercase") C.to_upper tokens drawn in
      let lowered : Text = apply_unary (text "lowercase") C.to_lower tokens raised in
      let shortened : Text = apply_truncate tokens lowered in
      let end_of = apply_functions_end tokens plain C keeps.upper keeps.lower in
      let some_name = random.some_letter 32 st (λ e. absurd (omega arith)) in
      (
        apply_replace tokens shortened,
        record {
          drawn = drawn;
          raised = raised;
          lowered = lowered;
          shortened = shortened;
          draws = replace_random_n-Ends random_string random.letters start (random_string 32 st).1;
          raises = (end_of drawn).0;
          lowers = (end_of raised).1;
          shortens = (end_of lowered).2;
          replaces = (end_of shortened).3;
        },
        refl,
        ground arith,
      )
