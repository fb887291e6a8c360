-- ===== src/Controller/Manager/One.antt =====
-- `setFinalizer`, `updateStatus` and `reconcileOne` of internal/controller/manager.go, over the
-- calls of the dynamic client and of `unstructured.Unstructured`.
pub mod Deletion
pub mod Waits
use kryptic_k8s_operator.Base.{
  ℕ, ◌≡◌, Bool, true, false, ◌&&◌, not, Option, none, some, List, Text, text, ◌==◌, text_eq, nat_eq,
  if◌then◌else◌,
}
use kryptic_k8s_operator.Errors.{GoError, kube_error, conflict, Step, Result, ok, err, ◌>>=◌}
use kryptic_k8s_operator.Krypticapi.{Fetcher}
use kryptic_k8s_operator.Controller.Types.{
  KrypticSecret, KrypticSecretStatus, default_refresh_interval, minute,
}
use kryptic_k8s_operator.Controller.Kube.{Kube, Library, World}
use kryptic_k8s_operator.Controller.Reconcile.Auth.{Reconciler}
use kryptic_k8s_operator.Controller.Reconcile.Backoff.{SyncResult, short_backoff}
use kryptic_k8s_operator.Controller.Reconcile.{reconcile, revoke_cr_leases}
use kryptic_k8s_operator.Controller.Manager.Finalizer.{has_finalizer, next_finalizers, same_strings}
use kryptic_k8s_operator.Controller.Manager.Status.{status_unchanged, new_status}
use kryptic_k8s_operator.Controller.Manager.{
  QueueItem, Memory, accepts, mark_status_write_in_flight, clear_status_write_in_flight,
  remember_status_write,
}

-- The resources behind the dynamic client. `Raw` is an unstructured object; `decode` is
-- `fromUnstructured`, which goes through JSON.
pub record Resources : Type 1 where
  pub State : Type 0
  pub Raw : Type 0
  pub get : QueueItem → Step State Raw
  pub update : Text → Raw → Step State Raw
  pub update_status : Text → Raw → Step State Raw
  pub decode : Raw → Result KrypticSecret
  pub finalizers : Raw → List Text
  pub set_finalizers : List Text → Raw → Raw
  pub set_status : KrypticSecretStatus → Raw → Result Raw
  pub resource_version : Raw → Text

-- What the manager works on: the resources, the memory of its writes, and the reconciler's world.
pub record Cluster (D : Resources) (K : Kube) (F : Fetcher) : Type 0 where
  pub resources : D.State
  pub memory : Memory
  pub world : World K F

is_conflict : GoError → Bool
is_conflict (kube_error conflict _) = true
is_conflict _ = false

-- `cr.DeletionTimestamp != nil && !cr.DeletionTimestamp.IsZero()`
unfoldable pub is_deleting : Option ℕ → Bool
is_deleting none = false
is_deleting (some t) = not (t == 0)

module _ (D : Resources) where
  -- `setFinalizer`
  unfoldable pub set_finalizer : D.Raw → Text → Bool → Step D.State (Unit {0})
  set_finalizer raw namespace add s =
      let next = next_finalizers (D.finalizers raw) add in
      if same_strings (D.finalizers raw) next
      then (ok tt, s)
      else (let (r, s') = D.update namespace (D.set_finalizers next raw) s in
          (elim r [ ok _ ↦ ok tt | err e ↦ err e ], s'))

  -- The one retry of `updateStatus` on the fresh object; `first` is the conflict.
  retry_status : QueueItem → KrypticSecretStatus → GoError → Step D.State D.Raw
  retry_status item status first s =
      let (r, s') = D.get item s in
      elim r [
        | err _ ↦ (err first, s')
        | ok fresh ↦ elim (D.set_status status fresh) [
          | err e ↦ (err e, s')
          | ok updated ↦ D.update_status item.namespace updated s'
        ]
      ]

  after_status : QueueItem → KrypticSecretStatus → Result D.Raw → Step D.State D.Raw
  unfolding is_conflict retry_status
  after_status item status (ok written) s = (ok written, s)
  after_status item status (err e) s =
      if is_conflict e then retry_status item status e s else (err e, s)

  -- The writes of `updateStatus`: the status on the object, once more after a conflict.
  unfoldable pub write_status : QueueItem → KrypticSecretStatus → D.Raw → Step D.State D.Raw
  unfolding after_status
  write_status item status updated s =
      let (r, s') = D.update_status item.namespace updated s in after_status item status r s'

module _ {D : Resources} {K : Kube} {F : Fetcher} where
  -- `updateStatus`: the memory is marked before the writes, the version is recorded if they end
  -- well, and the mark is cleared on the way out.
  unfoldable pub update_status :
      ℕ → D.Raw → KrypticSecret → SyncResult → Cluster D K F → Result (Unit {0}) × Cluster D K F
  update_status now raw cr result c =
      let item : QueueItem = record { namespace = cr.namespace; name = cr.name } in
      let status = new_status now cr result in
      elim (D.set_status status raw) [
        | err e ↦ (err e, c)
        | ok updated ↦
            let marked = mark_status_write_in_flight item c.memory in
            let (r, s) = write_status D item status updated c.resources in
            elim r [
              | err e ↦ (
                err e,
                record c { resources = s; memory = clear_status_write_in_flight item marked },
              )
              | ok written ↦ (
                ok tt,
                record c {
                  resources = s;
                  memory =
                      clear_status_write_in_flight item
                        (remember_status_write item (D.resource_version written) marked);
                },
              )
            ]
      ]

  -- The end of `reconcileOne`: the reconcile, and the status if it is worth a write.
  reconcile_live :
      Library → Reconciler → ℕ → D.Raw → KrypticSecret → Cluster D K F → ℕ × Cluster D K F
  reconcile_live L r now raw cr c =
      let (result, world) = reconcile L r cr c.world in
      let c' : Cluster D K F = record c { world = world } in
      (
        result.requeue_after,
        if status_unchanged cr result then c' else (update_status now raw cr result c').1,
      )

  -- The branch for a resource that is being deleted.
  reconcile_deleted :
      Library → Reconciler → D.Raw → KrypticSecret → Cluster D K F → ℕ × Cluster D K F
  reconcile_deleted L r raw cr c =
      let (revoked, world) = revoke_cr_leases L r cr c.world in
      let c' : Cluster D K F = record c { world = world } in
      elim revoked [
        | err _ ↦ (short_backoff default_refresh_interval, c')
        | ok _ ↦
            let (removed, s) = set_finalizer D raw cr.namespace false c'.resources in
            (
              elim removed [ err _ ↦ short_backoff default_refresh_interval | ok _ ↦ 0 ],
              record c' { resources = s },
            )
      ]

  -- The branch for one that is not.
  reconcile_present :
      Library → Reconciler → ℕ → D.Raw → KrypticSecret → Cluster D K F → ℕ × Cluster D K F
  unfolding reconcile_live
  reconcile_present L r now raw cr c =
      if has_finalizer cr.finalizers
      then reconcile_live L r now raw cr c
      else (let (added, s) = set_finalizer D raw cr.namespace true c.resources in
          let c' : Cluster D K F = record c { resources = s } in
          elim added [
            | err _ ↦ (short_backoff default_refresh_interval, c')
            | ok _ ↦ reconcile_live L r now raw cr c'
          ])

  reconcile_found : Library → Reconciler → ℕ → D.Raw → Cluster D K F → ℕ × Cluster D K F
  unfolding reconcile_deleted reconcile_present
  reconcile_found L r now raw c = elim (D.decode raw) [
    | err _ ↦ (minute, c)
    | ok cr ↦
        if is_deleting cr.deletion_timestamp
        then reconcile_deleted L r raw cr c
        else reconcile_present L r now raw cr c
  ]

  -- `reconcileOne`
  unfoldable pub reconcile_one :
      Library → Reconciler → Text → ℕ → QueueItem → Cluster D K F → ℕ × Cluster D K F
  unfolding reconcile_found
  reconcile_one L r watched now item c =
      if accepts watched item.namespace
      then (let (got, s) = D.get item c.resources in
          let c' : Cluster D K F = record c { resources = s } in
          elim got [ err _ ↦ (0, c') | ok raw ↦ reconcile_found L r now raw c' ])
      else (0, c)
