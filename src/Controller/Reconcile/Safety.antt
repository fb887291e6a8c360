-- ===== src/Controller/Reconcile/Safety.antt =====
-- What one reconcile does to the Secrets of the cluster: the stages of `Reconcile` against a lawful
-- API server, up to the theorem that they come to.
use kryptic_k8s_operator.Base.{
  ℕ, ◌≡◌, refl, ◌⊎◌, inl, inr, true, false, ◌&&◌, Text, text, arith, ◌==◌, text_eq, if◌then◌else◌,
  length, Bool-cases,
}
use kryptic_k8s_operator.Base.Dict
use kryptic_k8s_operator.Base.Dict.{Dict}
use kryptic_k8s_operator.Controller.ApiUrl.{UrlLibrary}
use kryptic_k8s_operator.Errors.{GoError, ok, Result-cases}
use kryptic_k8s_operator.Krypticapi.{Bundle, Credentials, Fetcher}
use kryptic_k8s_operator.Controller.Types.{
  KrypticSecret, target_secret_name, auth_secret_name, refresh_interval_or_default,
}
use kryptic_k8s_operator.Controller.Kube.{Kube, IsLawful, Library, World}
use kryptic_k8s_operator.Controller.Reconcile.Secrets.{select_keys, desired_secret}
use kryptic_k8s_operator.Controller.Reconcile.Backoff.{SyncResult, failed, synced}
use kryptic_k8s_operator.Controller.Reconcile.Auth.{
  Reconciler, credentials, credentials_from_secret,
}
use kryptic_k8s_operator.Controller.Reconcile.Apply.{permits, written, apply_secret-Outcome}
use kryptic_k8s_operator.Controller.Reconcile.{
  failure, write_secret, sync_leases, sync_bundle, read_lease_ids, reconcile,
}

-- Two states show the same Secret at the place that is asked about, and the same target.
abbrev Alike : (K : Kube) → KrypticSecret → Text → Text → K.State → K.State → Type 0
Alike K cr ns name s s' =
    ((K.get ns name s').0 ≡ (K.get ns name s).0)
    × ((K.get cr.namespace (target_secret_name cr) s').0
        ≡ (K.get cr.namespace (target_secret_name cr) s).0)

failure-unready :
    (interval n : ℕ) (message : ℕ → Text) (e : GoError)
    → (failure interval n message e).condition.status ≡ text "False"
unfolding failure failed
failure-unready interval n message e = ground arith

module _ (K : Kube) (law : IsLawful K) (U : UrlLibrary) (r : Reconciler) (cr : KrypticSecret)
    (ns name : Text) (s : K.State) where
  -- Reading the credentials changes no Secret.
  credentials-get : (K.get ns name (credentials K U r cr s).1).0 ≡ (K.get ns name s).0
  unfolding credentials credentials_from_secret
  credentials-get = ground (arith, law.get-get ns name cr.namespace (auth_secret_name cr.spec) s)

-- A lease pass over what was fetched: none, or one whose pairs win and whose ids are the new ones.
abbrev pub Leased :
    (F : Fetcher) → KrypticSecret → Credentials → Bundle → Bundle → Dict Text Text → Type 0
Leased F cr creds fetched bundle lease_ids =
    ((F.is_dynamic ≡ false) × (bundle ≡ fetched))
    ⊎ ((F.is_dynamic ≡ true)
        × (p : F.State) × (known : Dict Text Text) × (extra : Bundle) × ((F.sync_dynamic creds
              cr.spec.project_id cr.spec.environment known p).0
            ≡ ok (extra, lease_ids))
        × (bundle ≡ Dict.put_all fetched extra))

-- The bundle and the ids that a pass under these credentials has come to.
abbrev pub Fetched : (F : Fetcher) → KrypticSecret → Credentials → Bundle → Dict Text Text → Type 0
Fetched F cr creds bundle lease_ids =
    (p : F.State) × (fetched : Bundle) × ((F.fetch creds cr.spec.project_id cr.spec.environment p).0
      ≡ ok fetched)
    × Leased F cr creds fetched bundle lease_ids

module _ {K : Kube} {F : Fetcher} (L : Library) (cr : KrypticSecret) (ns name : Text) where
  -- Not ready, and nothing has changed; or ready, and only the target has, which was permitted.
  abbrev pub Settled :
      (Bundle → Dict Text Text → Type 0) → K.State → SyncResult × World K F → Type 0
  Settled P s (result, w) =
      ((result.condition.status ≡ text "False") × ((K.get ns name w.kube).0 ≡ (K.get ns name s).0))
      ⊎ ((result.condition.status ≡ text "True")
          × (bundle : Bundle) × (lease_ids : Dict Text Text) × P bundle lease_ids
          × (permits cr (K.get cr.namespace (target_secret_name cr) s).0 ≡ true)
          × (result.synced_keys ≡ length (select_keys bundle cr.spec.keys))
          × ((K.get ns name w.kube).0 ≡ (
              if ns == cr.namespace && name == target_secret_name cr
              then ok (
                  written
                    (desired_secret L.marshal_ids cr (select_keys bundle cr.spec.keys) lease_ids)
                    (K.get cr.namespace (target_secret_name cr) s).0)
              else (K.get ns name s).0)))

  shift-Settled :
      (P : Bundle → Dict Text Text → Type 0) (s s' : K.State) (out : SyncResult × World K F)
      → Alike K cr ns name s s'
      → Settled P s' out
      → Settled P s out
  shift-Settled P s s' out (here, target) settled = rw (here, target) at settled

  module _ (law : IsLawful K) where
    write_secret-Settled :
        (P : Bundle → Dict Text Text → Type 0) (interval : ℕ) (bundle : Bundle)
        (lease_ids : Dict Text Text) (w : World K F)
        → P bundle lease_ids
        → Settled P w.kube (write_secret L cr interval bundle lease_ids w)
    unfolding write_secret failed synced
    write_secret-Settled P interval bundle lease_ids w source =
        elim (apply_secret-Outcome K law L.urls.quote cr ns name L.marshal_ids
          (select_keys bundle cr.spec.keys) lease_ids w.kube) [
            | inl (e, refused, same) ↦ rw (refused, write_secret) (inl (refl, same))
            | inr (done, permitted, after) ↦
                rw (done, write_secret)
                  (inr (refl, bundle, lease_ids, source, permitted, refl, after))
          ]

    sync_leases-Settled :
        (P : Bundle → Dict Text Text → Type 0) (interval : ℕ) (creds : Credentials)
        (fetched : Bundle) (lease_ids : Dict Text Text) (w : World K F)
        → ((b : Bundle) (ids : Dict Text Text) → Leased F cr creds fetched b ids → P b ids)
        → Settled P w.kube (sync_leases L cr interval creds fetched lease_ids w)
    unfolding sync_leases
    sync_leases-Settled P interval creds fetched lease_ids w source =
        elim (Bool-cases F.is_dynamic) [
          | inr static ↦
              rw (static, sync_leases)
                (write_secret-Settled P interval fetched lease_ids w
                  (source fetched lease_ids (inl (static, refl))))
          | inl dynamic ↦
              elim (Result-cases
                (F.sync_dynamic creds cr.spec.project_id cr.spec.environment lease_ids
                  w.platform).0) [
                    | inl (e, failing) ↦
                        rw (dynamic, failing, sync_leases) (inl (failure-unready _ _ _ e, refl))
                    | inr ((extra, next), minted) ↦
                        rw (dynamic, minted, sync_leases)
                          (write_secret-Settled P interval (Dict.put_all fetched extra) next _ (
                            source _ next
                              (inr (dynamic, w.platform, lease_ids, extra, minted, refl))))
                  ]
        ]

    sync_bundle-Settled :
        (P : Bundle → Dict Text Text → Type 0) (interval : ℕ) (creds : Credentials) (w : World K F)
        → ((b : Bundle) (ids : Dict Text Text) → Fetched F cr creds b ids → P b ids)
        → Settled P w.kube (sync_bundle L cr interval creds w)
    unfolding sync_bundle read_lease_ids
    sync_bundle-Settled P interval creds w source =
        elim (Result-cases (F.fetch creds cr.spec.project_id cr.spec.environment w.platform).0) [
          | inl (e, failing) ↦ rw (failing, sync_bundle) (inl (failure-unready _ _ _ e, refl))
          | inr (bundle, fetched) ↦
              let w' : World K F = record w {
                platform = (F.fetch creds cr.spec.project_id cr.spec.environment w.platform).1;
              } in
              rw (fetched, sync_bundle)
                (shift-Settled P w.kube _
                  (sync_leases L cr interval creds bundle (read_lease_ids L cr w').0
                    (read_lease_ids L cr w').1)
                  (
                    law.get-get ns name cr.namespace (target_secret_name cr) w.kube,
                    law.get-get cr.namespace (target_secret_name cr) cr.namespace
                        (target_secret_name cr) w.kube,
                  )
                  (sync_leases-Settled P interval creds bundle _ _
                    (λ b ids leased. source b ids (w.platform, bundle, fetched, leased))))
        ]

    -- Against a lawful API server a reconcile either reports that it is not ready, and no Secret
    -- has changed; or it reports ready, and then its credentials were granted, a pass over the
    -- platform with them has come to a bundle and lease ids, the target was missing or owned by the
    -- resource, it now is what the resource wants (the bundle's selected keys for its data) over
    -- what was there, the result counts these keys, and every other Secret is as it was.
    pub reconcile-Settled :
        (r : Reconciler) (w : World K F)
        → Settled
            (λ bundle lease_ids.
              (creds : Credentials) × ((credentials K L.urls r cr w.kube).0 ≡ ok creds)
              × Fetched F cr creds bundle lease_ids)
            w.kube
            (reconcile L r cr w)
    unfolding reconcile failed
    reconcile-Settled r w = elim (Result-cases (credentials K L.urls r cr w.kube).0) [
      | inl (e, denied) ↦
          rw (denied, reconcile) (inl (refl, credentials-get K law L.urls r cr ns name w.kube))
      | inr (creds, granted) ↦
          rw (granted, reconcile)
            (shift-Settled _ w.kube _
              (sync_bundle L cr (refresh_interval_or_default L.parse_duration cr.spec) creds
                (record w { kube = (credentials K L.urls r cr w.kube).1 }))
              (
                credentials-get K law L.urls r cr ns name w.kube,
                credentials-get K law L.urls r cr cr.namespace (target_secret_name cr) w.kube,
              )
              (sync_bundle-Settled _ _ creds _ (λ b ids source. (creds, refl, source))))
    ]
