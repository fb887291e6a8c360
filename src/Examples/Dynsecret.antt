-- ===== src/Examples/Dynsecret.antt =====
-- The theorems on generated names and passwords at concrete inputs.
use kryptic_k8s_operator.Base.{
  ◌≤◌, ◌≡◌, refl, some, true, List, [], ◌∷◌, Text, text, length, take, contains, arith, nat_eq,
  ℕ_discrete,
}
use kryptic_k8s_operator.Dynsecret.Random.{
  alphabet, all_chars, random_string, is_rejected, random_string-take,
}
use kryptic_k8s_operator.Dynsecret.Random.Uniform.{count_below, draws_to, random_string_uniform}

-- Two buffers; the byte 250 is rejected.
abbrev buffers : List Text
buffers = (0 ∷ 250 ∷ []) ∷ (63 ∷ 5 ∷ []) ∷ []

enough : 2 ≤ length (all_chars buffers)
unfolding is_rejected
enough = omega arith

random_string-take_example :
    (rest : List Text) × (random_string 2 buffers ≡ some (take 2 (all_chars buffers), rest))
    × (length (take 2 (all_chars buffers)) ≡ 2)
random_string-take_example = random_string-take 2 buffers enough

listed : contains alphabet b'q' ≡ true
unfolding text ℕ_discrete
listed = refl

random_string_uniform_example : count_below 256 (draws_to b'q') ≡ 4
random_string_uniform_example = random_string_uniform b'q' listed
