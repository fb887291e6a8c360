-- ===== src/Controller/Reconcile/Permanent.antt =====
-- Which failed calls of the platform are taken for a mistake of the user.
use kryptic_k8s_operator.Base.{ℕ, Text, nat_eq}
use kryptic_k8s_operator.Errors.{GoError, api_error, wrap}

-- The error is an answer of the platform with this status, wrapped any number of times.
pub data Answers (status : ℕ) : GoError → Type 0 where
  answer : Answers status (api_error status)
  wrapped : {prefix : Text} {e : GoError} → Answers status e → Answers status (wrap prefix e)
