-- ===== src/Dynsecret/Awsiam/Revoked.antt =====
-- What a revocation leaves of the user, under what IAM documents.
use kryptic_k8s_operator.Base.{◌≡◌, Bool, true, false, Text, text_eq, arith, inl, inr}
use kryptic_k8s_operator.Errors.{GoError, ok, err, Result-cases}
use kryptic_k8s_operator.Dynsecret.Templates.{Work}
use kryptic_k8s_operator.Dynsecret.Awsiam.{
  Aws, lease_policy, aws_config, delete_keys, unless_gone, delete_user_of, revoked_name,
  needs_no_revoke, aws_revoke,
}

module _ {State : Type 0} (A : Aws State) where
  -- Whether a user is there, what `DeleteUser` and `NoSuchEntity` say of it.
  pub record Users : Type 0 where
    pub is_there : State → Text → Bool
    pub listing :
        (aws : A.AwsConfig) (name : Text) (s : State) (e : GoError)
        → (A.list_access_keys aws name s).0 ≡ err e
        → A.is_no_such_entity e ≡ true
        → is_there (A.list_access_keys aws name s).1 name ≡ false
    pub deleted :
        (aws : A.AwsConfig) (name : Text) (s : State)
        → (A.delete_user aws name s).0 ≡ ok tt
        → is_there (A.delete_user aws name s).1 name ≡ false
    pub missing :
        (aws : A.AwsConfig) (name : Text) (s : State) (e : GoError)
        → (A.delete_user aws name s).0 ≡ err e
        → A.is_no_such_entity e ≡ true
        → is_there (A.delete_user aws name s).1 name ≡ false

  unless_gone-ok : (e : GoError) → unless_gone A e ≡ ok tt → A.is_no_such_entity e ≡ true
  unfolding unless_gone
  unless_gone-ok e h = ground arith

  delete_user_of-gone :
      (users : Users) (aws : A.AwsConfig) (name : Text) (s : State)
      → (delete_user_of A aws name s).0 ≡ ok tt
      → users.is_there (delete_user_of A aws name s).1 name ≡ false
  unfolding delete_user_of
  delete_user_of-gone users aws name s done =
      elim (Result-cases (A.list_access_keys aws name s).0) [
        | inl (e, failed) ↦
            let gone : A.is_no_such_entity e ≡ true = unless_gone-ok e (ground arith) in
            let after = users.listing aws name s e failed gone in ground arith
        | inr (keys, listed) ↦
            let s3 : State =
              (A.delete_user_policy aws name lease_policy
                (delete_keys A aws name keys (A.list_access_keys aws name s).1)).1 in
            elim (Result-cases (A.delete_user aws name s3).0) [
              | inl (e, failed) ↦
                  let gone : A.is_no_such_entity e ≡ true = unless_gone-ok e (ground arith) in
                  let after = users.missing aws name s3 e failed gone in ground arith
              | inr (_, success) ↦
                  let after = users.deleted aws name s3 (ground arith) in ground arith
            ]
      ]

  -- A revocation that reports success has left no user of the name that it revokes, unless the
  -- credentials were those of a session, which ends by itself.
  pub aws_revoke-gone :
      (users : Users) (work : Work) (s : State)
      → needs_no_revoke A.simple_fold work.config.credential_type ≡ false
      → (aws_revoke A work s).0 ≡ ok tt
      → users.is_there (aws_revoke A work s).1 (revoked_name A work) ≡ false
  unfolding aws_revoke
  aws_revoke-gone users work s lasting done = elim (Result-cases (aws_config A work.config s).0) [
    | inl (e, failed) ↦ ground arith
    | inr (aws, configured) ↦
        let after =
          delete_user_of-gone users aws (revoked_name A work) (aws_config A work.config s).1 in
        ground arith
  ]
