-- ===== src/Strings/Count.antt =====
-- How often a byte stands in what the functions on texts give.
use kryptic_k8s_operator.Base.{
  ℕ, zero, suc, ◌+◌, ◌-◌, ◌≤◌, ◌≡◌, refl, List, [], ◌∷◌, ◌++◌, All, All-append, Text, ◌==◌, text_eq,
  nat_eq, arith, if◌then◌else◌, length, drop, take, Bool-cases, inl, inr,
}
use kryptic_k8s_operator.Strings.{strip, trim_space, space_width, space_width_back}
use kryptic_k8s_operator.Strings.Find.{has_prefix, rune_width, replace_all, spread, replace_from}
use kryptic_k8s_operator.Strings.Fields.{fields, fields_from, flush}
use mathlib.Core.List.{reverse, reverse-cons}

abbrev pub count : ℕ → Text → ℕ
count c [] = 0
count c (a ∷ s) = (if a == c then 1 else 0) + count c s

module _ (c : ℕ) where
  pub count-append : (s t : Text) → count c (s ++ t) ≡ count c s + count c t
  count-append [] t = omega arith
  count-append (a ∷ s) t = ground (arith, count-append s t)

  pub count-take : (n : ℕ) (s : Text) → count c (take n s) ≤ count c s
  count-take zero s = omega arith
  count-take (suc n) [] = omega arith
  count-take (suc n) (a ∷ s) = ground (arith, count-take n s)

  pub count-drop : (n : ℕ) (s : Text) → count c (drop n s) ≤ count c s
  count-drop zero s = omega arith
  count-drop (suc n) [] = omega arith
  count-drop (suc n) (a ∷ s) = ground (arith, count-drop n s)

  count-reverse : (s : Text) → count c (reverse s) ≡ count c s
  count-reverse [] = refl
  count-reverse (a ∷ s) =
      rw reverse-cons (ground (arith, count-append (reverse s) (a ∷ []), count-reverse s))

  count-strip : (width : Text → ℕ) (fuel : ℕ) (s : Text) → count c (strip width fuel s) ≤ count c s
  unfolding strip
  count-strip width zero s = omega arith
  count-strip width (suc fuel) s =
      ground (arith, count-strip width fuel (drop (width s) s), count-drop (width s) s)

  pub count-trim_space : (s : Text) → count c (trim_space s) ≤ count c s
  unfolding trim_space
  count-trim_space s =
      let left : Text = strip space_width (length s) s in
      let right : Text = strip space_width_back (length left) (reverse left) in
      omega (
        arith,
        count-reverse right,
        count-strip space_width_back (length left) (reverse left),
        count-reverse left,
        count-strip space_width (length s) s,
      )

  abbrev AtMost : ℕ → List Text → Type 0
  AtMost n = All (λ f. count c f ≤ n)

  AtMost-weaken : (m n : ℕ) (fs : List Text) → m ≤ n → AtMost m fs → AtMost n fs
  AtMost-weaken m n [] le all = tt
  AtMost-weaken m n (f ∷ fs) le all = (omega (arith, all.0), AtMost-weaken m n fs le all.1)

  flush-AtMost : (s : Text) (n : ℕ) → count c s ≤ n → AtMost n (flush s)
  flush-AtMost [] n le = tt
  flush-AtMost (a ∷ s) n le = (le, tt)

  fields_from-AtMost :
      (skip : ℕ) (current s : Text)
      → AtMost (count c current + count c s) (fields_from skip current s)
  unfolding fields_from
  fields_from-AtMost skip current [] = flush-AtMost current _ (omega arith)
  fields_from-AtMost (suc k) current (a ∷ s) =
      AtMost-weaken _ _ _ (ground arith) (fields_from-AtMost k current s)
  fields_from-AtMost zero current (a ∷ s) =
      elim (space_width (a ∷ s))
        as (λ w. AtMost (count c current + count c (a ∷ s)) (elim w [
          | zero ↦ fields_from 0 (current ++ a ∷ []) s
          | suc k ↦ flush current ++ fields_from k [] s
        ])) [
          | zero ↦
              AtMost-weaken _ _ _ (ground (arith, count-append current (a ∷ [])))
                (fields_from-AtMost 0 (current ++ a ∷ []) s)
          | suc k ↦
              All-append _ (flush current) _ (flush-AtMost current _ (omega arith))
                (AtMost-weaken _ _ _ (ground arith) (fields_from-AtMost k [] s))
        ]

  -- No field has more of a byte than the text.
  pub fields-AtMost : (s : Text) → All (λ f. count c f ≤ count c s) (fields s)
  unfolding fields
  fields-AtMost s = AtMost-weaken _ _ _ (omega arith) (fields_from-AtMost 0 [] s)

  replace_from-none :
      (skip : ℕ) (old new s : Text)
      → count c new ≡ 0
      → count c s ≡ 0
      → count c (replace_from skip old new s) ≡ 0
  unfolding replace_from
  replace_from-none skip old new [] hn hs = refl
  replace_from-none (suc k) old new (a ∷ s) hn hs = replace_from-none k old new s hn (ground arith)
  replace_from-none zero old new (a ∷ s) hn hs = elim (Bool-cases (has_prefix old (a ∷ s))) [
    | inl here ↦
        rw (here, replace_from)
          (ground (
            arith,
            count-append new (replace_from (length old - 1) old new s),
            replace_from-none (length old - 1) old new s,
          ))
    | inr other ↦ rw (other, replace_from) (ground (arith, replace_from-none 0 old new s))
  ]

  spread-none :
      (skip : ℕ) (new s : Text) → count c new ≡ 0 → count c s ≡ 0 → count c (spread skip new s) ≡ 0
  unfolding spread
  spread-none skip new [] hn hs = hn
  spread-none (suc k) new (a ∷ s) hn hs = ground (arith, spread-none k new s)
  spread-none zero new (a ∷ s) hn hs =
      let more : ℕ = rune_width (a ∷ s) - 1 in
      ground (arith, count-append new (a ∷ spread more new s), spread-none more new s)

  -- A byte that is in neither text is not in the result.
  pub count-replace_all :
      (s old new : Text) → count c new ≡ 0 → count c s ≡ 0 → count c (replace_all s old new) ≡ 0
  unfolding replace_all
  count-replace_all s old new hn hs =
      ground (arith, spread-none 0 new s, replace_from-none 0 old new s)
