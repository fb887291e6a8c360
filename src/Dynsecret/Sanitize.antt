-- ===== src/Dynsecret/Sanitize.antt =====
-- `Sanitize` of internal/dynsecret/username.go. No byte of a rune beyond ASCII is kept, so the loop
-- over runes is one over bytes.
use kryptic_k8s_operator.Base.{
  ℕ, zero, suc, ◌≡◌, refl, ◌≢◌, ◌↔◌, subst, Bool, true, ◌&&◌, ◌||◌, [], ◌∷◌, All, All-append, Text,
  text, ◌==◌, text_eq, nat_eq, arith, if◌then◌else◌, leb, length,
}
use kryptic_k8s_operator.Strings.{trim_space, strip, space_width, space_width_back}
use mathlib.Core.List.{reverse, reverse-cons, reverse-reverse}

unfoldable pub is_kept : ℕ → Bool
is_kept r =
    leb b'a' r && leb r b'z' || leb b'A' r && leb r b'Z' || leb b'0' r && leb r b'9' || r == b'_'

keep : Text → Text
keep [] = []
keep (r ∷ value) = let rest = keep value in if is_kept r then r ∷ rest else rest

-- `Sanitize`
unfoldable pub sanitize : Text → Text
unfolding keep
sanitize value =
    if trim_space value == []
    then text "kryptic"
    else if keep value == []
    then text "kryptic"
    else keep value

abbrev pub IsName : Text → Type 0
IsName s = (s ≢ []) × All (λ r. is_kept r ≡ true) s

keep-All : (value : Text) → All (λ r. is_kept r ≡ true) (keep value)
unfolding keep
keep-All [] = tt
keep-All (r ∷ value) = ground (arith, keep-All value)

keep_of_All : (value : Text) → All (λ r. is_kept r ≡ true) value → keep value ≡ value
unfolding keep
keep_of_All [] all = refl
keep_of_All (r ∷ value) all = ground (arith, keep_of_All value)

default-IsName : IsName (text "kryptic")
unfolding text is_kept
default-IsName = ground arith

sanitize-IsName : (value : Text) → IsName (sanitize value)
unfolding sanitize
sanitize-IsName value = ground (arith, keep-All value, default-IsName)

width_of_kept : (s : Text) → All (λ r. is_kept r ≡ true) s → space_width s ≡ 0
unfolding space_width is_kept
width_of_kept [] all = refl
width_of_kept (a ∷ []) all = ground arith
width_of_kept (a ∷ b ∷ []) all = ground arith
width_of_kept (a ∷ b ∷ c ∷ s) all = ground arith

width_back_of_kept : (s : Text) → All (λ r. is_kept r ≡ true) s → space_width_back s ≡ 0
unfolding space_width_back is_kept
width_back_of_kept [] all = refl
width_back_of_kept (a ∷ []) all = ground arith
width_back_of_kept (a ∷ b ∷ []) all = ground arith
width_back_of_kept (a ∷ b ∷ c ∷ s) all = ground arith

strip_of_zero : (width : Text → ℕ) (fuel : ℕ) (s : Text) → width s ≡ 0 → strip width fuel s ≡ s
unfolding strip
strip_of_zero width zero s e = refl
strip_of_zero width (suc fuel) s e = ground arith

All-reverse : (P : ℕ → Type 0) (s : Text) → All P s → All P (reverse s)
All-reverse P [] all = tt
All-reverse P (a ∷ s) all =
    rw reverse-cons (All-append P (reverse s) (a ∷ []) (All-reverse P s all.1) (all.0, tt))

trim_space_of_kept : (s : Text) → All (λ r. is_kept r ≡ true) s → trim_space s ≡ s
unfolding trim_space
trim_space_of_kept s all =
    rw
      (
        strip_of_zero space_width (length s) s (width_of_kept s all),
        strip_of_zero space_width_back (length s) (reverse s)
            (width_back_of_kept (reverse s) (All-reverse _ s all)),
      )
      (reverse-reverse s)

sanitize_of_name : (value : Text) → IsName value → sanitize value ≡ value
unfolding sanitize
sanitize_of_name value (some_text, all) =
    ground (arith, trim_space_of_kept value all, keep_of_All value all)

pub sanitize_lem :
    (value : Text) → IsName (sanitize value) × ((sanitize value ≡ value) ↔ IsName value)
sanitize_lem value =
    (sanitize-IsName value, ((λ e. subst IsName e (sanitize-IsName value)), sanitize_of_name value))
