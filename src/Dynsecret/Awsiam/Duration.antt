-- ===== src/Dynsecret/Awsiam/Duration.antt =====
-- How long a session of STS lasts.
use kryptic_k8s_operator.Base.Int.{ℤ, pos, negsuc}
use kryptic_k8s_operator.Base.{ℕ, ◌≤◌, ◌<◌, ◌≡◌, nat_eq, arith, if◌then◌else◌, ltb, ◌==◌}
use kryptic_k8s_operator.Dynsecret.Awsiam.{session_duration, positive_int32, int32_bits, two_31}

-- `min(d, limit)`
abbrev pub at_most : ℕ → ℕ → ℕ
at_most limit d = if ltb limit d then limit else d

-- Where the limit is an hour or more, a session that is asked for lasts at least a second and no
-- longer than the limit, whatever number is configured; one that is configured below 2^31 lasts as
-- long as it says, up to the limit, and an hour at 0; and one from -1 down to -2^31 lasts an hour.
pub session_duration-bounds :
    (limit : ℕ) (seconds : ℤ) (n : ℕ)
    → 3600 ≤ limit
    → n < two_31
    → (1 ≤ session_duration limit seconds)
      × (session_duration limit seconds ≤ limit)
      × (session_duration limit (pos n) ≡ (if n == 0 then 3600 else at_most limit n))
      × (session_duration limit (negsuc n) ≡ 3600)
unfolding session_duration positive_int32 int32_bits
session_duration-bounds limit seconds n long fits =
    (ground arith, ground arith, ground arith, ground arith)
