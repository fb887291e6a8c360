-- ===== src/Strings/Split.antt =====
-- `strings.Split` around its separator.
use kryptic_k8s_operator.Base.{ℕ, ◌≡◌, refl, [], ◌∷◌, ◌++◌, Text, arith}
use kryptic_k8s_operator.Strings.{split, push_front}
use kryptic_k8s_operator.Strings.Count.{count}

pub split-last : (b : ℕ) (s : Text) → count b s ≡ 0 → split b s ≡ s ∷ []
unfolding split push_front
split-last b [] e = refl
split-last b (a ∷ s) e = ground (arith, split-last b s (ground arith))

pub split-append : (b : ℕ) (s t : Text) → count b s ≡ 0 → split b (s ++ b ∷ t) ≡ s ∷ split b t
unfolding split push_front
split-append b [] t e = ground arith
split-append b (a ∷ s) t e = ground (arith, split-append b s t (ground arith))
