-- ===== src/Dynsecret/Awsiam/Succeeds.antt =====
-- Revocations, under what IAM documents of the calls that they make.
use kryptic_k8s_operator.Base.{
  ◌≡◌, refl, ap, ◌∙◌, Bool, true, false, List, [], ◌∷◌, Text, arith, Bool-cases, inl, inr,
}
use kryptic_k8s_operator.Errors.{GoError, ok, err}
use kryptic_k8s_operator.Dynsecret.Templates.{Work}
use kryptic_k8s_operator.Dynsecret.Awsiam.{
  Aws, lease_policy, aws_config, delete_keys, unless_gone, delete_user_of, revoked_name, aws_revoke,
}

module _ {State : Type 0} (A : Aws State) where
  -- An IAM that answers. `DeleteUser` refuses a user that has a key or the policy of the lease.
  pub record Iam : Type 0 where
    pub is_there : State → Text → Bool
    pub keys : State → Text → List Text
    pub has_policy : State → Text → Bool
    pub no_user : GoError
    pub no_user_is : A.is_no_such_entity no_user ≡ true
    pub list_found :
        (aws : A.AwsConfig) (name : Text) (s : State)
        → is_there s name ≡ true
        → A.list_access_keys aws name s ≡ (ok (keys s name), s)
    pub list_missing :
        (aws : A.AwsConfig) (name : Text) (s : State)
        → is_there s name ≡ false
        → A.list_access_keys aws name s ≡ (err no_user, s)
    pub key_deleted :
        (aws : A.AwsConfig) (name key : Text) (rest : List Text) (s : State)
        → keys s name ≡ key ∷ rest
        → (keys (A.delete_access_key aws name key s).1 name ≡ rest)
          × (is_there (A.delete_access_key aws name key s).1 name ≡ is_there s name)
    pub policy_deleted :
        (aws : A.AwsConfig) (name : Text) (s : State)
        → (has_policy (A.delete_user_policy aws name lease_policy s).1 name ≡ false)
          × (keys (A.delete_user_policy aws name lease_policy s).1 name ≡ keys s name)
          × (is_there (A.delete_user_policy aws name lease_policy s).1 name ≡ is_there s name)
    pub user_deleted :
        (aws : A.AwsConfig) (name : Text) (s : State)
        → is_there s name ≡ true
        → keys s name ≡ []
        → has_policy s name ≡ false
        → (A.delete_user aws name s).0 ≡ ok tt

  module _ (iam : Iam) (aws : A.AwsConfig) (name : Text) where
    delete_keys-keys :
        (listed : List Text) (s : State)
        → iam.keys s name ≡ listed
        → (iam.keys (delete_keys A aws name listed s) name ≡ [])
          × (iam.is_there (delete_keys A aws name listed s) name ≡ iam.is_there s name)
    unfolding delete_keys
    delete_keys-keys [] s e = (e, refl)
    delete_keys-keys (key ∷ rest) s e =
        let (left, same) = iam.key_deleted aws name key rest s e in
        let (none_left, still) =
          delete_keys-keys rest (A.delete_access_key aws name key s).1 left in
        (none_left, still ∙ same)

    delete_user_of-ok : (s : State) → (delete_user_of A aws name s).0 ≡ ok tt
    unfolding delete_user_of unless_gone
    delete_user_of-ok s = elim (Bool-cases (iam.is_there s name)) [
      | inr missing ↦
          rw (iam.list_missing aws name s missing, delete_user_of) (ground (arith, iam.no_user_is))
      | inl there ↦
          let s2 : State = delete_keys A aws name (iam.keys s name) s in
          let (no_keys, still) = delete_keys-keys (iam.keys s name) s refl in
          let (no_policy, same_keys, same_user) = iam.policy_deleted aws name s2 in
          let gone =
            iam.user_deleted aws name (A.delete_user_policy aws name lease_policy s2).1
              (same_user ∙ still ∙ there) (same_keys ∙ no_keys) no_policy in
          let listed : (A.list_access_keys aws name s).0 ≡ ok (iam.keys s name) =
            ap (λ answer. answer.0) (iam.list_found aws name s there) in
          let unchanged : (A.list_access_keys aws name s).1 ≡ s =
            ap (λ answer. answer.1) (iam.list_found aws name s there) in
          ground (arith, gone)
    ]

  -- Where IAM answers and the credentials of the configuration load, a revocation succeeds, whether
  -- the user is there or not: its keys and the policy of the lease are gone when it is deleted.
  pub aws_revoke-ok :
      (iam : Iam) (work : Work) (s : State) (aws : A.AwsConfig)
      → (aws_config A work.config s).0 ≡ ok aws
      → (aws_revoke A work s).0 ≡ ok tt
  unfolding aws_revoke
  aws_revoke-ok iam work s aws configured =
      ground (arith, delete_user_of-ok iam aws (revoked_name A work) (aws_config A work.config s).1)
