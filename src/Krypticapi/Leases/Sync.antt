-- ===== src/Krypticapi/Leases/Sync.antt =====
-- internal/krypticapi/leases.go: `SyncDynamic` and `RevokeLeases`, and the client as the
-- reconciler's fetcher.
use kryptic_k8s_operator.Base.Dict
use kryptic_k8s_operator.Base.Dict.{Dict}
use kryptic_k8s_operator.Base.{
  true, ◌&&◌, List, [], ◌∷◌, Text, ◌==◌, text_eq, nat_eq, if◌then◌else◌, is_empty,
}
use kryptic_k8s_operator.Strings.{trim_space}
use kryptic_k8s_operator.Errors.{Step, ok, err, return, ◌>>=◌}
use kryptic_k8s_operator.Krypticapi.{Credentials, Bundle, Fetcher}
use kryptic_k8s_operator.Krypticapi.Decrypt.{Crypto, MachineKeys, CipherBundle, DynamicHint}
use kryptic_k8s_operator.Krypticapi.Client.{Http, token, machine_keys, open_org_key, fetch}
use kryptic_k8s_operator.Dynsecret.Provider.{Targets}
use kryptic_k8s_operator.Krypticapi.Leases.{
  LeaseJson, Session, id_at, stale_ids, on_client, bundle_and_keys,
}
use kryptic_k8s_operator.Krypticapi.Leases.Work.{ensure_lease, apply_own_work, revoke_one}

module _ {H : Http} {T : Targets} (X : Crypto) (J : LeaseJson) where
  -- The loop of `SyncDynamic` over the hints: `out` and `leases`.
  unfoldable pub ensure_leases :
      Credentials
      → Text
      → Text
      → Text
      → Text
      → Dict Text Text
      → List DynamicHint
      → Bundle
      → Dict Text Text
      → Step (Session H T) (Bundle × Dict Text Text)
  unfolding ensure_lease
  ensure_leases creds token org_key project_id environment known [] out leases w =
      (ok (out, leases), w)
  ensure_leases creds token org_key project_id environment known (hint ∷ hints) out leases w =
      let (r, w') =
        ensure_lease X J creds token org_key project_id environment hint (id_at hint.key known) w in
      elim r [
        | err e ↦ (err e, w')
        | ok (pairs, id) ↦
            ensure_leases creds token org_key project_id environment known hints
              (Dict.put_all out pairs) (if id == [] then leases else Dict.insert hint.key id leases)
              w'
      ]

  -- The loop of `RevokeLeases`.
  unfoldable pub revoke_each :
      Credentials → Text → MachineKeys → List Text → Step (Session H T) (Unit {0})
  unfolding revoke_one
  revoke_each creds token keys [] = return tt
  revoke_each creds token keys (id ∷ ids) =
      let rest = revoke_each creds token keys ids in
      if trim_space id == [] then rest else ◌>>=◌ (revoke_one X J creds token keys id) (λ _. rest)

  -- `RevokeLeases`
  unfoldable pub revoke_leases : Credentials → List Text → Step (Session H T) (Unit {0})
  unfolding revoke_each
  revoke_leases creds [] = return tt
  revoke_leases creds (id ∷ ids) = do
    value ← on_client (token X creds)
    keys ← on_client (machine_keys X creds value)
    revoke_each creds value keys (id ∷ ids)

  -- `SyncDynamic` from the local key on.
  unfoldable pub sync_with_keys :
      Credentials
      → Text
      → Text
      → Dict Text Text
      → Text
      → MachineKeys
      → CipherBundle
      → Step (Session H T) (Bundle × Dict Text Text)
  unfolding apply_own_work ensure_leases stale_ids revoke_leases
  sync_with_keys creds project_id environment known value keys bundle = do
    org_key ← on_client (open_org_key X creds keys bundle.wrapped_org_key)
    _ ← apply_own_work X J creds value org_key
    (out, leases) ←
        ensure_leases creds value org_key project_id environment known bundle.dynamic_secrets [] []
    _ ← revoke_leases creds (stale_ids leases known)
    return (out, leases)

  -- `SyncDynamic`
  unfoldable pub sync_dynamic :
      Credentials → Text → Text → Dict Text Text → Step (Session H T) (Bundle × Dict Text Text)
  unfolding sync_with_keys
  sync_dynamic creds project_id environment known = do
    value ← on_client (token X creds)
    (keys, bundle) ← on_client (bundle_and_keys X creds value project_id environment)
    if is_empty bundle.dynamic_secrets && is_empty known
        then return ([], [])
        else sync_with_keys creds project_id environment known value keys bundle

-- The client as the reconciler sees it.
abbrev pub client_fetcher : Http → Targets → Crypto → LeaseJson → Fetcher
client_fetcher H T X J = record {
  State = Session H T;
  fetch = λ creds project_id environment. on_client (fetch X creds project_id environment);
  is_dynamic = true;
  sync_dynamic = sync_dynamic X J;
  revoke_leases = revoke_leases X J;
}
