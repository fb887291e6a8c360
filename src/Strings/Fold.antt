-- ===== src/Strings/Fold.antt =====
-- `strings.EqualFold` and `strings.ToLower`, rune by rune. Of Unicode's tables only what meets ASCII
-- is written out: U+212A folds with k, U+017F with s, and U+0130 and U+212A have i and k for their
-- lower case.
use kryptic_k8s_operator.Base.{
  ℕ, zero, suc, ◌-◌, Bool, true, false, ◌&&◌, ◌||◌, Option, none, some, List, [], ◌∷◌, Text, ◌==◌,
  text_eq, nat_eq, if◌then◌else◌, take,
}
use kryptic_k8s_operator.Strings.{to_lower_byte}
use kryptic_k8s_operator.Strings.Find.{rune_width}

-- The runes that `range` gives, each as its bytes; a byte of no valid rune is U+FFFD. The number
-- counts the bytes left of the current rune.
unfoldable pub runes_from : ℕ → Text → List Text
runes_from skip [] = []
runes_from (suc k) (a ∷ s) = runes_from k s
runes_from zero (a ∷ s) = elim (rune_width (a ∷ s)) [
  | zero ↦ (0xEF ∷ 0xBF ∷ 0xBD ∷ []) ∷ runes_from 0 s
  | suc k ↦ take (suc k) (a ∷ s) ∷ runes_from k s
]

-- The ASCII byte that a rune folds with, in lower case, if there is one.
unfoldable pub ascii_of : Text → Option ℕ
ascii_of (a ∷ []) = some (to_lower_byte a)
ascii_of rune =
    if rune == 0xE2 ∷ 0x84 ∷ 0xAA ∷ []
    then some b'k'
    else if rune == 0xC5 ∷ 0xBF ∷ []
    then some b's'
    else none

module _ (simple_fold : Text → Text → Bool) where
  -- Whether `unicode.SimpleFold` leads from one rune to the other. `simple_fold` is its table, for
  -- runes that fold with no ASCII byte.
  unfoldable pub same_letter : Text → Text → Bool
  same_letter r q = elim (ascii_of r) [
    | some a ↦ elim (ascii_of q) [ some b ↦ a == b | none ↦ false ]
    | none ↦ elim (ascii_of q) [ some b ↦ false | none ↦ r == q || simple_fold r q ]
  ]

  unfoldable pub same_letters : List Text → List Text → Bool
  same_letters [] [] = true
  same_letters [] (q ∷ qs) = false
  same_letters (r ∷ rs) [] = false
  same_letters (r ∷ rs) (q ∷ qs) = same_letter r q && same_letters rs qs

  -- `strings.EqualFold`
  unfoldable pub equal_fold : Text → Text → Bool
  unfolding same_letters runes_from
  equal_fold s t = same_letters (runes_from 0 s) (runes_from 0 t)

-- A rune with an ASCII lower case, and how many bytes it takes.
unfoldable pub lower_head : Text → ℕ × ℕ
lower_head [] = (0, 1)
lower_head (a ∷ []) = (to_lower_byte a, 1)
lower_head (a ∷ b ∷ []) = if a == 0xC4 && b == 0xB0 then (b'i', 2) else (to_lower_byte a, 1)
lower_head (a ∷ b ∷ c ∷ s) =
    if a == 0xC4 && b == 0xB0
    then (b'i', 2)
    else if a == 0xE2 && b == 0x84 && c == 0xAA
    then (b'k', 3)
    else (to_lower_byte a, 1)

-- The number counts the bytes left of the current rune.
unfoldable pub to_lower_from : ℕ → Text → Text
unfolding lower_head
to_lower_from skip [] = []
to_lower_from (suc k) (a ∷ s) = to_lower_from k s
to_lower_from zero (a ∷ s) =
    let (lower, width) = lower_head (a ∷ s) in lower ∷ to_lower_from (width - 1) s

-- `strings.ToLower`, up to runes beyond ASCII whose lower case is beyond ASCII: these are left, since
-- the program compares the result with ASCII only.
unfoldable pub to_lower : Text → Text
unfolding to_lower_from
to_lower s = to_lower_from 0 s
