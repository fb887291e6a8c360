-- ===== src/Dynsecret/Apply.antt =====
-- `Apply` of internal/dynsecret/apply.go.
pub mod Reported
use kryptic_k8s_operator.Base.Int.{ℤ, pos, negsuc}
use kryptic_k8s_operator.Base.{
  ℕ, suc, ◌+◌, Bool, true, false, Option, none, some, [], ◌++◌, Text, text, ◌==◌, text_eq, nat_eq,
  if◌then◌else◌,
}
use kryptic_k8s_operator.Strings.{decimal}
use kryptic_k8s_operator.Errors.{GoError, plain, wrap, Step, Result, ok, err, error_text, ◌>>=◌}
use kryptic_k8s_operator.Krypticapi.Decrypt.{Crypto}
use kryptic_k8s_operator.Dynsecret.Provider.{
  WorkItem, CompleteLease, Minted, WorkContext, ProviderKind, Targets, integer, is_number,
  lookup_provider, parse_provider_config, provider_name,
}

module _ (X : Crypto) (T : Targets) where
  -- The first part of `apply`: the configuration, and its provider.
  unfoldable pub open_config : Text → WorkItem → Result (T.Config × ProviderKind)
  open_config org_key item =
      elim (X.open_envelope org_key item.provider_envelope
        (X.secret_context item.definition_id item.environment_id)) [
          | err e ↦ err (wrap (text "decrypt provider config: ") e)
          | ok plaintext ↦ elim (parse_provider_config T.decode_config plaintext) [
            | err e ↦ err e
            | ok config ↦ elim (lookup_provider item.provider) [
              | err e ↦ err e
              | ok provider ↦ ok (config, provider)
            ]
          ]
        ]

  -- The work of `apply`: the user name, a new password and the time of expiry.
  unfoldable pub prepare : WorkItem → T.Config → T.State → WorkContext T.Config × T.State
  prepare item config s =
      let (username, s1) =
        if item.entity_id == []
        then T.render_username item.username_template item.identity_name item.dynamic_secret_name
            (provider_name item.provider) s
        else (item.entity_id, s) in
      let (password, s2) = T.random_string 32 s1 in
      (
        record {
          config = config;
          username = username;
          password = password;
          creation_statement = item.creation_statement;
          revocation_statement = item.revocation_statement;
          renew_statement = item.renew_statement;
          url_template = item.url_template;
          expires_at =
              if T.parse_time item.expires_at == 0
              then T.now s2 + 3_600_000_000_000
              else T.parse_time item.expires_at;
          entity_id = item.entity_id;
        },
        s2,
      )

  -- What the platform is told of a lease that was minted: the credentials are sealed.
  unfoldable pub complete_mint :
      Text → Text → WorkItem → WorkContext T.Config → Minted → Result CompleteLease
  complete_mint org_key org_key_id item work raw =
      let named : Minted =
        if raw.username == [] then record raw { username = work.username } else raw in
      let minted : Minted = record named {
        url = T.render_url item.url_template named work.config work.expires_at;
      } in
      elim (X.seal_envelope org_key org_key_id (T.marshal_minted minted)
        (X.secret_context item.definition_id item.environment_id)) [
          | err e ↦ err e
          | ok sealed ↦ ok (record {
            lease_id = item.lease_id;
            succeeded = true;
            error = [];
            entity_id = minted.username;
            minted_envelope = sealed;
            expires_at = some (T.format_time work.expires_at);
          })
        ]

  unfoldable pub complete_other : WorkItem → Text → Option Text → CompleteLease
  complete_other item username expires_at = record {
    lease_id = item.lease_id;
    succeeded = true;
    error = [];
    entity_id = username;
    minted_envelope = [];
    expires_at = expires_at;
  }

  -- The `switch` of `apply`, up to the call of `complete`.
  unfoldable pub perform :
      Text → Text → WorkItem → ProviderKind → WorkContext T.Config → Step T.State CompleteLease
  unfolding is_number complete_mint complete_other
  perform org_key org_key_id item provider work s =
      if is_number item.action 0
      then (let (r, s') = T.mint provider work s in
          (
            elim r [
              | err e ↦ err e
              | ok minted ↦ complete_mint org_key org_key_id item work minted
            ],
            s',
          ))
      else if is_number item.action 1
      then (let (r, s') = T.renew provider work s in
          (
            elim r [
              | err e ↦ err e
              | ok _ ↦ ok (complete_other item work.username (some (T.format_time work.expires_at)))
            ],
            s',
          ))
      else if is_number item.action 2
      then (let (r, s') = T.revoke provider work s in
          (elim r [ err e ↦ err e | ok _ ↦ ok (complete_other item work.username none) ], s'))
      else (err (plain (text "unknown lease action " ++ integer item.action)), s)

  -- `apply`, up to the call of `complete`.
  unfoldable pub apply_work : Text → Text → WorkItem → Step T.State CompleteLease
  unfolding open_config prepare perform
  apply_work org_key org_key_id item s = elim (open_config org_key item) [
    | err e ↦ (err e, s)
    | ok (config, provider) ↦
        let (work, s') = prepare item config s in perform org_key org_key_id item provider work s'
  ]

-- What `Apply` reports of a failure.
abbrev pub failure_report : WorkItem → GoError → CompleteLease
failure_report item e = record {
  lease_id = item.lease_id;
  succeeded = false;
  error = error_text e;
  entity_id = [];
  minted_envelope = [];
  expires_at = none;
}

-- `Apply`, for the work in the world of the completer. The answer to the report of a failure is
-- dropped.
unfoldable pub apply_with {ℓ} :
    {W : Type ℓ}
    → Step W CompleteLease
    → (CompleteLease → Step W (Unit {0}))
    → WorkItem
    → Step W (Unit {0})
apply_with work complete item w =
    let (r, w') = (work >>= complete) w in
    elim r [ err e ↦ (err e, (complete (failure_report item e) w').1) | ok _ ↦ (ok tt, w') ]
