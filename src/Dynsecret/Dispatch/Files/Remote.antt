-- ===== src/Dynsecret/Dispatch/Files/Remote.antt =====
-- The temporary files after the work of the providers that make none.
use kryptic_k8s_operator.Base.{
  none, some, List, [], ◌∷◌, ◌≡◌, refl, ◌∙◌, Bool-cases, inl, inr, Text, ◌==◌, text_eq, arith,
  if◌then◌else◌,
}
use kryptic_k8s_operator.Strings.{trim_space, split}
use kryptic_k8s_operator.Strings.Fold.{to_lower}
use kryptic_k8s_operator.Strings.Fields.{fields}
use kryptic_k8s_operator.Errors.{Result-cases, Step, ◌>>=◌, ◌>>◌, return}
use kryptic_k8s_operator.Dynsecret.Provider.{Minted}
use kryptic_k8s_operator.Dynsecret.Templates.{
  Layout, ProviderConfig, Work, render_statements, statement_vars,
}
use kryptic_k8s_operator.Dynsecret.Redis.{
  RedisLibrary, redis_options, redis_lines, redis_do, redis_run,
}
use kryptic_k8s_operator.Dynsecret.Awsiam.{
  Aws, AwsKeys, auth_method_of, access_key, assume_role, host_chain, aws_config, mint_sts,
  user_input, mint_iam_user, aws_mint, AuthMethod, config_by, connector_role, lease_role,
  delete_keys, delete_user_of, aws_revoke, is_temporary_kind, needs_no_revoke, revoked_name,
  lease_policy, region_of, static_keys, minted_keys, session_duration,
}
use kryptic_k8s_operator.Dynsecret.Dispatch.Files.{Keeps, KeepsRedis, KeepsAws}
use kryptic_k8s_operator.Dynsecret.Dispatch.Files.Keeps.{Keeps-bind, Keeps-deferred}
use kryptic_k8s_operator.Dynsecret.Dispatch.Files.Provided.{Keeps-unless}

module _ {State : Type 0} (present : State → List Text) where
  module _ (R : RedisLibrary State) (kept : KeepsRedis present R) where
    redis_lines-Keeps :
        (client : R.Conn) (lines : List Text) → Keeps present (redis_lines R client lines)
    unfolding redis_lines
    redis_lines-Keeps client [] s = refl
    redis_lines-Keeps client (raw ∷ rest) s = elim (Bool-cases (trim_space raw == [])) [
      | inl blank ↦ ground (arith, redis_lines-Keeps client rest s)
      | inr command ↦ elim (Result-cases (R.send_command client (fields (trim_space raw)) s).0) [
        | inl (e, failed) ↦ ground (arith, kept.send_command client (fields (trim_space raw)) s)
        | inr (_, done) ↦ ground (
          arith,
          kept.send_command client (fields (trim_space raw)) s,
          redis_lines-Keeps client rest (R.send_command client (fields (trim_space raw)) s).1,
        )
      ]
    ]

    pub redis_run-Keeps :
        (layout : Layout) (work : Work) (template : Text)
        → Keeps present (redis_run R layout work template)
    unfolding redis_run redis_do
    redis_run-Keeps layout work template =
        let client = R.new_client (redis_options work.config) in
        let script : Text =
          render_statements layout.order template (statement_vars layout.format work) in
        Keeps-deferred present (R.close_client client) (redis_lines R client (split 10 script))
          (redis_lines-Keeps client (split 10 script)) (kept.close_client client)

  module _ (A : Aws State) (kept : KeepsAws present A) where
    config_by-Keeps :
        (method : AuthMethod) (cfg : ProviderConfig) → Keeps present (config_by A method cfg)
    unfolding config_by
    config_by-Keeps access_key cfg s = kept.load_config (region_of cfg) (some (static_keys cfg)) s
    config_by-Keeps assume_role cfg s =
        Keeps-bind present (A.load_config (region_of cfg) (some (static_keys cfg)))
          (λ base. A.assume_role base (connector_role cfg) >>= λ keys.
            A.load_config (region_of cfg) (some keys))
          (kept.load_config (region_of cfg) (some (static_keys cfg)))
          (λ base.
            Keeps-bind present (A.assume_role base (connector_role cfg))
              (λ keys. A.load_config (region_of cfg) (some keys))
              (kept.assume_role base (connector_role cfg))
              (λ keys. kept.load_config (region_of cfg) (some keys)))
          s
    config_by-Keeps host_chain cfg s = kept.load_config (region_of cfg) none s

    -- What is minted from keys.
    Keeps-keys :
        (m : Step State AwsKeys) (minted : AwsKeys → Minted)
        → Keeps present m
        → Keeps present (m >>= λ keys. return (minted keys))
    Keeps-keys m minted kept_m =
        Keeps-bind present m (λ keys. return (minted keys)) kept_m λ _ s. refl

    mint_sts-Keeps : (aws : A.AwsConfig) (work : Work) → Keeps present (mint_sts A aws work)
    unfolding mint_sts
    mint_sts-Keeps aws work s = ground (
      arith,
      Keeps-keys (A.get_session_token aws (session_duration 43200 work.config.duration_seconds))
          (minted_keys work)
          (kept.get_session_token aws (session_duration 43200 work.config.duration_seconds)) s,
      Keeps-keys (A.assume_role aws (lease_role work)) (minted_keys work)
          (kept.assume_role aws (lease_role work)) s,
    )

    put_policy-Keeps :
        (aws : A.AwsConfig) (work : Work)
        → Keeps present (
            if work.config.policy_document == []
            then return tt
            else A.put_user_policy aws work.username lease_policy work.config.policy_document)
    put_policy-Keeps aws work =
        Keeps-unless present (work.config.policy_document == [])
          (A.put_user_policy aws work.username lease_policy work.config.policy_document)
          (kept.put_user_policy aws work.username lease_policy work.config.policy_document)

    mint_iam_user-Keeps :
        (aws : A.AwsConfig) (work : Work) → Keeps present (mint_iam_user A aws work)
    unfolding mint_iam_user
    mint_iam_user-Keeps aws work =
        Keeps-bind present
          (A.create_user aws (user_input A work)
            >> (if work.config.policy_document == []
                then return tt
                else A.put_user_policy aws work.username lease_policy work.config.policy_document))
          (λ _. A.create_access_key aws work.username >>= λ keys.
            return (minted_keys work (record keys { session_token = [] })))
          (Keeps-bind present (A.create_user aws (user_input A work))
            (λ _.
              if work.config.policy_document == []
              then return tt
              else A.put_user_policy aws work.username lease_policy work.config.policy_document)
            (kept.create_user aws (user_input A work)) λ _. put_policy-Keeps aws work)
          λ _.
            Keeps-keys (A.create_access_key aws work.username)
              (λ keys. minted_keys work (record keys { session_token = [] }))
              (kept.create_access_key aws work.username)

    pub aws_mint-Keeps : (work : Work) → Keeps present (aws_mint A work)
    unfolding aws_mint aws_config
    aws_mint-Keeps work =
        Keeps-bind present (config_by A (auth_method_of work.config.auth_method) work.config)
          (λ aws.
            if is_temporary_kind (to_lower work.config.credential_type)
            then mint_sts A aws work
            else mint_iam_user A aws work)
          (config_by-Keeps (auth_method_of work.config.auth_method) work.config)
          λ aws s. ground (arith, mint_sts-Keeps aws work s, mint_iam_user-Keeps aws work s)

    delete_keys-present :
        (aws : A.AwsConfig) (name : Text) (keys : List Text) (s : State)
        → present (delete_keys A aws name keys s) ≡ present s
    unfolding delete_keys
    delete_keys-present aws name [] s = refl
    delete_keys-present aws name (key ∷ keys) s =
        delete_keys-present aws name keys (A.delete_access_key aws name key s).1
        ∙ kept.delete_access_key aws name key s

    delete_user_of-Keeps :
        (aws : A.AwsConfig) (name : Text) → Keeps present (delete_user_of A aws name)
    unfolding delete_user_of
    delete_user_of-Keeps aws name s = elim (Result-cases (A.list_access_keys aws name s).0) [
      | inl (e, failed) ↦ ground (arith, kept.list_access_keys aws name s)
      | inr (keys, listed) ↦
          let s1 : State = (A.list_access_keys aws name s).1 in
          let s2 : State = delete_keys A aws name keys s1 in
          let s3 : State = (A.delete_user_policy aws name lease_policy s2).1 in
          ground (
            arith,
            kept.delete_user aws name s3,
            kept.delete_user_policy aws name lease_policy s2,
            delete_keys-present aws name keys s1,
            kept.list_access_keys aws name s,
          )
    ]

    pub aws_revoke-Keeps : (work : Work) → Keeps present (aws_revoke A work)
    unfolding aws_revoke aws_config
    aws_revoke-Keeps work =
        Keeps-unless present (needs_no_revoke A.simple_fold work.config.credential_type)
          (config_by A (auth_method_of work.config.auth_method) work.config >>= λ aws.
            delete_user_of A aws (revoked_name A work))
          (Keeps-bind present (config_by A (auth_method_of work.config.auth_method) work.config)
            (λ aws. delete_user_of A aws (revoked_name A work))
            (config_by-Keeps (auth_method_of work.config.auth_method) work.config)
            λ aws. delete_user_of-Keeps aws (revoked_name A work))
