-- ===== src/Dynsecret/Quoted.antt =====
-- `splitQuoted` of internal/dynsecret/username.go. Its loop over runes is one over bytes, once each
-- byte of no valid rune has become U+FFFD, as `range` and `WriteRune` make it.
use kryptic_k8s_operator.Base.{
  ℕ, zero, suc, ◌+◌, ◌≤◌, ◌≡◌, refl, ◌≢◌, Bool, true, false, ◌||◌, not, List, [], ◌∷◌, ◌++◌, All,
  All-append, Text, ◌==◌, nat_eq, arith, Bool-cases, inl, inr, ℕ-cases,
}
use kryptic_k8s_operator.Strings.{space_width}
use kryptic_k8s_operator.Strings.Find.{rune_width}
use kryptic_k8s_operator.Strings.Fields.{flush}
use kryptic_k8s_operator.Strings.Count.{count, count-append}

-- The number counts the bytes left of the current rune.
unfoldable pub valid_runes : ℕ → Text → Text
valid_runes skip [] = []
valid_runes (suc k) (a ∷ s) = a ∷ valid_runes k s
valid_runes zero (a ∷ s) = elim (rune_width (a ∷ s)) [
  | zero ↦ 0xEF ∷ 0xBF ∷ 0xBD ∷ valid_runes 0 s
  | suc k ↦ a ∷ valid_runes k s
]

-- `'` or `"`
abbrev pub is_quote : ℕ → Bool
is_quote a = a == 39 || a == 34

-- The loop: the bytes left of the current space, whether a quote is open, and the current part.
unfoldable pub split_from : ℕ → Bool → Text → Text → List Text
split_from skip quoted current [] = flush current
split_from (suc k) quoted current (a ∷ s) = split_from k quoted current s
split_from zero quoted current (a ∷ s) = elim (is_quote a) [
  | true ↦ split_from 0 (not quoted) current s
  | false ↦ elim quoted [
    | true ↦ split_from 0 true (current ++ a ∷ []) s
    | false ↦ elim (space_width (a ∷ s)) [
      | zero ↦ split_from 0 false (current ++ a ∷ []) s
      | suc k ↦ flush current ++ split_from k false [] s
    ]
  ]
]

-- `splitQuoted`
unfoldable pub split_quoted : Text → List Text
unfolding valid_runes split_from
split_quoted input = split_from 0 false [] (valid_runes 0 input)

abbrev pub quotes : Text → ℕ
quotes s = count 39 s + count 34 s

count-valid_runes :
    (c : ℕ) (skip : ℕ) (s : Text) → c ≤ 127 → count c (valid_runes skip s) ≤ count c s
unfolding valid_runes
count-valid_runes c skip [] small = omega arith
count-valid_runes c (suc k) (a ∷ s) small = ground (arith, count-valid_runes c k s small)
count-valid_runes c zero (a ∷ s) small =
    elim (rune_width (a ∷ s))
      as (λ w.
        count c
          (elim w [ zero ↦ 0xEF ∷ 0xBF ∷ 0xBD ∷ valid_runes 0 s | suc k ↦ a ∷ valid_runes k s ])
        ≤ count c (a ∷ s)) [
          | zero ↦ ground (arith, count-valid_runes c 0 s small)
          | suc k ↦ ground (arith, count-valid_runes c k s small)
        ]

abbrev pub NoQuote : List Text → Type 0
NoQuote = All (λ f. quotes f ≡ 0)

flush-NoQuote : (s : Text) → quotes s ≡ 0 → NoQuote (flush s)
flush-NoQuote [] e = tt
flush-NoQuote (a ∷ s) e = (e, tt)

split_from-NoQuote :
    (skip : ℕ) (quoted : Bool) (current s : Text)
    → quotes current ≡ 0
    → NoQuote (split_from skip quoted current s)
unfolding split_from
split_from-NoQuote skip quoted current [] e = flush-NoQuote current e
split_from-NoQuote (suc k) quoted current (a ∷ s) e = split_from-NoQuote k quoted current s e
split_from-NoQuote zero quoted current (a ∷ s) e = elim (Bool-cases (is_quote a)) [
  | inl quote ↦ rw (quote, split_from) (split_from-NoQuote 0 (not quoted) current s e)
  | inr other ↦
      let longer : quotes (current ++ a ∷ []) ≡ 0 =
        ground (arith, count-append 39 current (a ∷ []), count-append 34 current (a ∷ [])) in
      elim (Bool-cases quoted) [
        | inl inside ↦
            rw (other, inside, split_from) (split_from-NoQuote 0 true (current ++ a ∷ []) s longer)
        | inr outside ↦ elim (ℕ-cases (space_width (a ∷ s))) [
          | inl text_byte ↦
              rw (other, outside, text_byte, split_from)
                (split_from-NoQuote 0 false (current ++ a ∷ []) s longer)
          | inr (k, space) ↦
              rw (other, outside, space, split_from)
                (All-append _ (flush current) _ (flush-NoQuote current e)
                  (split_from-NoQuote k false [] s refl))
        ]
      ]
]

-- The quotes are taken away.
pub split_quoted-NoQuote : (input : Text) → NoQuote (split_quoted input)
unfolding split_quoted
split_quoted-NoQuote input = split_from-NoQuote 0 false [] (valid_runes 0 input) refl

flush-no_space : (s : Text) → count 32 s ≡ 0 → All (λ f. count 32 f ≡ 0) (flush s)
flush-no_space [] e = tt
flush-no_space (a ∷ s) e = (e, tt)

space_width-32 : (a : ℕ) (s : Text) → a ≡ 32 → space_width (a ∷ s) ≢ 0
unfolding space_width
space_width-32 a [] e h = ground arith
space_width-32 a (b ∷ []) e h = ground arith
space_width-32 a (b ∷ c ∷ s) e h = ground arith

-- Without quotes every space separates.
split_from-no_space :
    (skip : ℕ) (current s : Text)
    → count 32 current ≡ 0
    → quotes s ≡ 0
    → All (λ f. count 32 f ≡ 0) (split_from skip false current s)
unfolding split_from
split_from-no_space skip [] [] e q = tt
split_from-no_space skip (b ∷ current) [] e q = (e, tt)
split_from-no_space (suc k) current (a ∷ s) e q = split_from-no_space k current s e (ground arith)
split_from-no_space zero current (a ∷ s) e q =
    let plain : is_quote a ≡ false = ground arith in
    elim (ℕ-cases (space_width (a ∷ s))) [
      | inl text_byte ↦
          let solid : a ≢ 32 = λ space. space_width-32 a s space text_byte in
          rw (plain, text_byte, split_from)
            (split_from-no_space 0 (current ++ a ∷ []) s
              (ground (arith, count-append 32 current (a ∷ []))) (ground arith))
      | inr (k, space) ↦
          rw (plain, space, split_from)
            (All-append _ (flush current) _ (flush-no_space current e)
              (split_from-no_space k [] s refl (ground arith)))
    ]

pub split_quoted-no_space :
    (input : Text) → quotes input ≡ 0 → All (λ f. count 32 f ≡ 0) (split_quoted input)
unfolding split_quoted
split_quoted-no_space input q = split_from-no_space 0 [] (valid_runes 0 input) refl (
    omega (
      arith,
      count-valid_runes 39 0 input (omega arith),
      count-valid_runes 34 0 input (omega arith),
    ))
