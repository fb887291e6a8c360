-- ===== src/Dynsecret/Random.antt =====
-- `RandomString` of internal/dynsecret/username.go, over the buffers that `crypto/rand` fills. With
-- no buffer left the model has no result; Go waits for the next one, or panics.
pub mod Uniform
use kryptic_k8s_operator.Base.{
  ℕ, zero, suc, ◌+◌, ◌%◌, ◌≤◌, ◌<◌, ◌≡◌, refl, sym, ◌∙◌, ap, ◌⊎◌, inl, inr, Bool, true, false, not,
  ◌&&◌, Option, none, some, List, [], ◌∷◌, ◌++◌, Text, text, ◌==◌, nat_eq, ℕ_discrete, contains,
  arith, if◌then◌else◌, ltb, leb, length, length-append, take, Bool-cases,
}
use mathlib.Core.List.{append-nil, append_assoc}

abbrev pub alphabet : Text
alphabet = text "abcdefghijklmnopqrstuvwxyzABCDEFGHIJKLMNOPQRSTUVWXYZ0123456789"

-- `alphabet[i]`; every index that is asked for is in range.
unfoldable pub char_at : Text → ℕ → ℕ
char_at [] i = 0
char_at (a ∷ s) zero = a
char_at (a ∷ s) (suc i) = char_at s i

-- `b >= limit`, with 248 for `256 - 256%62`.
unfoldable pub is_rejected : ℕ → Bool
is_rejected b = leb 248 b

unfoldable pub char_of : ℕ → ℕ
unfolding char_at text
char_of b = char_at alphabet (b % 62)

-- The loop over one buffer.
unfoldable pub fill : ℕ → Text → Text → Text
fill n [] out = out
fill n (b ∷ buffer) out = elim (is_rejected b) [
  | true ↦ fill n buffer out
  | false ↦ elim (length (out ++ char_of b ∷ []) == n) [
    | true ↦ out ++ char_of b ∷ []
    | false ↦ fill n buffer (out ++ char_of b ∷ [])
  ]
]

-- The loop over the buffers: the text and the buffers that are left.
unfoldable pub draw : ℕ → List Text → Text → Option (Text × List Text)
unfolding fill
draw n [] out = if ltb (length out) n then none else some (out, [])
draw n (buffer ∷ supply) out =
    let rest = draw n supply (fill n buffer out) in
    if ltb (length out) n then rest else some (out, buffer ∷ supply)

abbrev at_least_one : ℕ → ℕ
at_least_one n = if ltb n 1 then 1 else n

-- `RandomString`
unfoldable pub random_string : ℕ → List Text → Option (Text × List Text)
unfolding draw
random_string n supply = draw (at_least_one n) supply []

-- The characters of the accepted bytes.
abbrev chars : Text → Text
chars [] = []
chars (b ∷ buffer) = if is_rejected b then chars buffer else char_of b ∷ chars buffer

abbrev pub all_chars : List Text → Text
all_chars [] = []
all_chars (buffer ∷ supply) = chars buffer ++ all_chars supply

take_all : (n : ℕ) (s : Text) → length s ≤ n → take n s ≡ s
take_all zero [] h = refl
take_all (suc n) [] h = refl
take_all zero (a ∷ s) h = absurd (omega arith)
take_all (suc n) (a ∷ s) h = ap (◌∷◌ a) (take_all n s (omega arith))

take-append : (n : ℕ) (s t : Text) → n ≤ length s → take n (s ++ t) ≡ take n s
take-append zero s t h = refl
take-append (suc n) [] t h = absurd (omega arith)
take-append (suc n) (a ∷ s) t h = ap (◌∷◌ a) (take-append n s t (omega arith))

take-take-append : (n : ℕ) (s t : Text) → take n (take n s ++ t) ≡ take n (s ++ t)
take-take-append zero s t = refl
take-take-append (suc n) [] t = refl
take-take-append (suc n) (a ∷ s) t = ap (◌∷◌ a) (take-take-append n s t)

length-take-le : (n : ℕ) (s : Text) → length (take n s) ≤ n
length-take-le zero s = omega arith
length-take-le (suc n) [] = omega arith
length-take-le (suc n) (a ∷ s) = omega (arith, length-take-le n s)

le-length-take_append : (n : ℕ) (s t : Text) → n ≤ length (s ++ t) → n ≤ length (take n s ++ t)
le-length-take_append zero s t h = omega arith
le-length-take_append (suc n) [] t h = h
le-length-take_append (suc n) (a ∷ s) t h = omega (arith, le-length-take_append n s t (omega arith))

length-take_of_le : (n : ℕ) (s : Text) → n ≤ length s → length (take n s) ≡ n
length-take_of_le zero s h = refl
length-take_of_le (suc n) [] h = absurd (omega arith)
length-take_of_le (suc n) (a ∷ s) h = ap suc (length-take_of_le n s (omega arith))

fill-take :
    (n : ℕ) (buffer out : Text) → length out < n → fill n buffer out ≡ take n (out ++ chars buffer)
unfolding fill
fill-take n [] out h = rw append-nil (sym (take_all n out (omega arith)))
fill-take n (b ∷ buffer) out h = elim (Bool-cases (is_rejected b)) [
  | inl rejected ↦ rw (rejected, fill, chars) (fill-take n buffer out h)
  | inr accepted ↦
      let out' : Text = out ++ char_of b ∷ [] in
      let longer = length-append out (char_of b ∷ []) in
      rw (accepted, ← append_assoc out (char_of b ∷ []) (chars buffer), fill, chars)
        (ground (
          arith,
          longer,
          fill-take n buffer out',
          take-append n out' (chars buffer),
          take_all n out',
        ))
]

-- Drawing takes the first characters that the supply yields.
draw-take :
    (n : ℕ) (supply : List Text) (out : Text)
    → length out ≤ n
    → n ≤ length (out ++ all_chars supply)
    → (rest : List Text) × (draw n supply out ≡ some (take n (out ++ all_chars supply), rest))
unfolding draw
draw-take n [] out most enough =
    let full = ap length (append-nil out) in
    ([], rw (append-nil, take_all n out most) (ground arith))
draw-take n (buffer ∷ supply) out most enough = elim (Bool-cases (ltb (length out) n)) [
  | inr full ↦ (
    buffer ∷ supply,
    rw (full, draw)
        (ground (arith, take-append n out (all_chars (buffer ∷ supply)), take_all n out)),
  )
  | inl short ↦
      let s = out ++ chars buffer in
      let assoc = append_assoc out (chars buffer) (all_chars supply) in
      let filled = fill-take n buffer out (ground arith) in
      let (rest, drawn) =
        draw-take n supply (take n s) (length-take-le n s)
          (le-length-take_append n s (all_chars supply) (rw assoc enough)) in
      (
        rest,
        rw (short, filled, draw)
            (drawn
              ∙ ap (λ t. some (t, rest))
                  (take-take-append n s (all_chars supply) ∙ ap (take n) assoc)),
      )
]

-- `RandomString` ends as soon as its buffers have yielded enough accepted bytes, and then its text
-- is the characters of the first of them: as many as asked for, and one for 0.
pub random_string-take :
    (n : ℕ) (supply : List Text)
    → at_least_one n ≤ length (all_chars supply)
    → (rest : List Text) × (random_string n supply
        ≡ some (take (at_least_one n) (all_chars supply), rest))
      × (length (take (at_least_one n) (all_chars supply)) ≡ at_least_one n)
unfolding random_string
random_string-take n supply enough =
    let (rest, drawn) = draw-take (at_least_one n) supply [] (omega arith) enough in
    (rest, drawn, length-take_of_le (at_least_one n) (all_chars supply) enough)
