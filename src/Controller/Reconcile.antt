-- ===== src/Controller/Reconcile.antt =====
-- internal/controller/reconcile.go. `Reconcile` is cut at its calls: `reconcile`, `sync_bundle`,
-- `sync_leases` and `write_secret` each end in the call of the next.
use kryptic_k8s_operator.Base.Dict
use kryptic_k8s_operator.Base.Dict.{Dict}
pub mod Secrets
pub mod Backoff
pub mod Auth
pub mod Requeue
pub mod Apply
pub mod Safety
pub mod Contents
pub mod Granted
pub mod Permanent
use kryptic_k8s_operator.Base.{
  ℕ, Bool, true, false, Option, none, some, List, [], ◌∷◌, ◌++◌, map, Text, text, ◌==◌, text_eq,
  if◌then◌else◌, length, is_empty,
}
use kryptic_k8s_operator.Strings.{decimal}
use kryptic_k8s_operator.Errors.{
  GoError, Step, Result, ok, err, return, error_text, as_api, permanent, api_error_text, ◌>>=◌,
}
use kryptic_k8s_operator.Krypticapi.{Credentials, Bundle, Fetcher}
use kryptic_k8s_operator.Controller.Types.{
  KrypticSecret, Secret, lease_ids_annotation, auth_secret_name, refresh_interval_or_default,
  target_secret_name,
}
use kryptic_k8s_operator.Controller.Kube.{Kube, Library, World, on_kube, on_platform}
use Secrets.{select_keys, apply_secret}
use Backoff.{SyncResult, failed, synced, short_backoff, long_backoff}
use Auth.{Reconciler, credentials}

-- The failure branches after `Fetch` and after `SyncDynamic`: the message of a permanent one is
-- given apart.
pub failure : ℕ → ℕ → (ℕ → Text) → GoError → SyncResult
failure interval synced_keys permanent_message e = elim (as_api e) [
  | none ↦ failed (text "FetchFailed") (error_text e) (short_backoff interval) synced_keys
  | some status ↦
      if permanent status
      then failed (text "ConfigurationError") (permanent_message status) (long_backoff interval)
          synced_keys
      else failed (text "FetchFailed") (error_text e) (short_backoff interval) synced_keys
]

-- The annotation's ids, or none where it is empty or does not parse.
pub decode_ids : (Text → Option (Dict Text Text)) → Text → Dict Text Text
decode_ids unmarshal_ids raw =
    if raw == [] then [] else elim (unmarshal_ids raw) [ none ↦ [] | some ids ↦ ids ]

pub annotation_of : Secret → Text
annotation_of s = elim (Dict.lookup lease_ids_annotation s.annotations) [
  | none ↦ []
  | some raw ↦ raw
]

module _ {K : Kube} {F : Fetcher} (L : Library) where
  -- `readLeaseIDs`
  unfoldable pub read_lease_ids : KrypticSecret → World K F → Dict Text Text × World K F
  unfolding decode_ids annotation_of
  read_lease_ids cr w =
      let (r, w') = on_kube (K.get cr.namespace (target_secret_name cr)) w in
      (elim r [ err _ ↦ [] | ok s ↦ decode_ids L.unmarshal_ids (annotation_of s) ], w')

  write_secret : KrypticSecret → ℕ → Bundle → Dict Text Text → World K F → SyncResult × World K F
  write_secret cr interval bundle lease_ids w =
      let contents = select_keys bundle cr.spec.keys in
      let (r, w') = on_kube (apply_secret K L.urls.quote L.marshal_ids cr contents lease_ids) w in
      elim r [
        | err e ↦ (
          failed (text "SecretWriteFailed") (error_text e) (short_backoff interval)
              cr.status.synced_key_count,
          w',
        )
        | ok _ ↦ (synced L.urls.quote interval (length contents) (target_secret_name cr), w')
      ]

  sync_leases :
      KrypticSecret → ℕ → Credentials → Bundle → Dict Text Text → World K F → SyncResult × World K F
  unfolding write_secret failure
  sync_leases cr interval creds bundle lease_ids w =
      if F.is_dynamic
      then (let (r, w') =
            on_platform (F.sync_dynamic creds cr.spec.project_id cr.spec.environment lease_ids) w in
          elim r [
            | err e ↦ (failure interval cr.status.synced_key_count (λ _. error_text e) e, w')
            | ok (extra, next) ↦ write_secret cr interval (Dict.put_all bundle extra) next w'
          ])
      else write_secret cr interval bundle lease_ids w

  sync_bundle : KrypticSecret → ℕ → Credentials → World K F → SyncResult × World K F
  unfolding sync_leases failure
  sync_bundle cr interval creds w =
      let (r, w') = on_platform (F.fetch creds cr.spec.project_id cr.spec.environment) w in
      elim r [
        | err e ↦ (failure interval cr.status.synced_key_count api_error_text e, w')
        | ok bundle ↦
            let (lease_ids, w2) = read_lease_ids cr w' in
            sync_leases cr interval creds bundle lease_ids w2
      ]

  -- `Reconcile`
  unfoldable pub reconcile : Reconciler → KrypticSecret → World K F → SyncResult × World K F
  unfolding sync_bundle
  reconcile r cr w =
      let interval = refresh_interval_or_default L.parse_duration cr.spec in
      let (c, w') = on_kube (credentials K L.urls r cr) w in
      elim c [
        | err e ↦ (
          failed (text "AuthSecretInvalid") (error_text e) interval cr.status.synced_key_count,
          w',
        )
        | ok creds ↦ sync_bundle cr interval creds w'
      ]

  -- `RevokeCRLeases`. Go's `range` visits the ids in an order of its own; here it is the list's.
  unfoldable pub revoke_cr_leases : Reconciler → KrypticSecret → Step (World K F) (Unit {0})
  revoke_cr_leases r cr w =
      if F.is_dynamic
      then (let (ids, w') = read_lease_ids cr w in
          if is_empty ids
          then (ok tt, w')
          else (◌>>=◌ (on_kube (credentials K L.urls r cr))
                (λ creds. on_platform (F.revoke_leases creds (map (λ (_, id). id) ids))))
              w')
      else (ok tt, w)
