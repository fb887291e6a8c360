-- ===== src/Dynsecret/Random/Uniform.antt =====
-- The distribution of the characters of `RandomString`, by a table over all bytes.
use kryptic_k8s_operator.Base.{
  ℕ, zero, suc, ◌+◌, ◌≡◌, refl, Bool, true, not, ◌&&◌, [], ◌∷◌, Text, text, ◌==◌, nat_eq,
  ℕ_discrete, contains, arith, if◌then◌else◌,
}
use kryptic_k8s_operator.Dynsecret.Random.{alphabet, is_rejected, char_of}

-- How many of the numbers below `k` pass.
pub count_below : ℕ → (ℕ → Bool) → ℕ
count_below zero p = 0
count_below (suc k) p = (if p k then 1 else 0) + count_below k p

abbrev pub draws_to : ℕ → ℕ → Bool
draws_to a b = not (is_rejected b) && char_of b == a

all_of : (ℕ → Bool) → Text → Bool
all_of p [] = true
all_of p (a ∷ s) = p a && all_of p s

all_of-contains :
    (p : ℕ → Bool) (s : Text) (a : ℕ) → all_of p s ≡ true → contains s a ≡ true → p a ≡ true
unfolding all_of
all_of-contains p [] a every listed = cc
all_of-contains p (b ∷ s) a every listed = ground (arith, all_of-contains p s a)

abbrev is_fair : ℕ → Bool
is_fair a = count_below 256 (draws_to a) == 4

fair_table : all_of is_fair alphabet ≡ true
unfolding all_of count_below char_of is_rejected text ℕ_discrete
fair_table = refl

-- No character is more likely than another: of the 256 bytes exactly four are accepted and give
-- it, for each character of the alphabet.
pub random_string_uniform : (a : ℕ) → contains alphabet a ≡ true → count_below 256 (draws_to a) ≡ 4
random_string_uniform a listed =
    let fair = all_of-contains is_fair alphabet a fair_table listed in ground arith
