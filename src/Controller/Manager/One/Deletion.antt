-- ===== src/Controller/Manager/One/Deletion.antt =====
-- What a pass of `reconcileOne` guarantees about leases, finalizers, waits and marks.
use kryptic_k8s_operator.Base.Dict
use kryptic_k8s_operator.Base.{ℕ, ◌≡◌, refl, ◌⊎◌, inl, inr, ◌≤◌, true, false, Text, text_eq, arith}
use kryptic_k8s_operator.Errors.{GoError, Result-cases, ok, err}
use kryptic_k8s_operator.Krypticapi.{Fetcher}
use kryptic_k8s_operator.Controller.Types.{KrypticSecret, min_refresh_interval}
use kryptic_k8s_operator.Controller.Kube.{Kube, Library}
use kryptic_k8s_operator.Controller.Reconcile.Auth.{Reconciler}
use kryptic_k8s_operator.Controller.Reconcile.Backoff.{SyncResult, short_backoff}
use kryptic_k8s_operator.Controller.Reconcile.Requeue.{reconcile_requeue_bounds}
use kryptic_k8s_operator.Controller.Reconcile.{reconcile, revoke_cr_leases}
use kryptic_k8s_operator.Controller.Manager.{
  QueueItem, Memory, item_eq, writing, accepts, mark_status_write_in_flight,
  clear_status_write_in_flight, remember_status_write,
}
use kryptic_k8s_operator.Controller.Manager.Finalizer.{has_finalizer}
use kryptic_k8s_operator.Controller.Manager.Status.{new_status}
use kryptic_k8s_operator.Controller.Manager.One.{
  Resources, Cluster, is_deleting, set_finalizer, write_status, update_status, reconcile_live,
  reconcile_one,
}

module _ {D : Resources} {K : Kube} {F : Fetcher} (L : Library) (r : Reconciler) (watched : Text)
    (now : ℕ) (item : QueueItem) (c : Cluster D K F) where
  -- A pass asks for no retry, or for one after thirty seconds at the earliest.
  reconcile_one_wait :
      ((reconcile_one L r watched now item c).0 ≡ 0)
      ⊎ (min_refresh_interval ≤ (reconcile_one L r watched now item c).0)
  unfolding reconcile_one short_backoff
  reconcile_one_wait = elim (Result-cases (D.get item c.resources).0) [
    | inl (e, missing) ↦ ground arith
    | inr (raw, found) ↦ elim (Result-cases (D.decode raw)) [
      | inl (e, broken) ↦ ground arith
      | inr (cr, decoded) ↦ ground (arith, (reconcile_requeue_bounds L r cr c.world).0)
    ]
  ]

  module _ (raw : D.Raw) (cr : KrypticSecret) (watching : accepts watched item.namespace ≡ true)
      (found : (D.get item c.resources).0 ≡ ok raw) (decoded : D.decode raw ≡ ok cr) where
    -- A resource that is being deleted keeps its finalizer until its leases are revoked: after a
    -- revocation that fails nothing has been written to it.
    pub reconcile_one_keeps_finalizer :
        (e : GoError)
        → is_deleting cr.deletion_timestamp ≡ true
        → (revoke_cr_leases L r cr c.world).0 ≡ err e
        → (reconcile_one L r watched now item c).1.resources ≡ (D.get item c.resources).1
    unfolding reconcile_one
    reconcile_one_keeps_finalizer e deleting failing = ground arith

    -- No lease is minted for a resource that does not hold the finalizer: if it cannot be added, the
    -- platform and the Secrets are as they were.
    pub reconcile_one_needs_finalizer :
        (e : GoError)
        → is_deleting cr.deletion_timestamp ≡ false
        → has_finalizer cr.finalizers ≡ false
        → (set_finalizer D raw cr.namespace true (D.get item c.resources).1).0 ≡ err e
        → (reconcile_one L r watched now item c).1.world ≡ c.world
    unfolding reconcile_one
    reconcile_one_needs_finalizer e live unmarked failing = ground arith

module _ (j item : QueueItem) (m : Memory) (free : writing j m ≡ false) where
  clear-mark-writing :
      writing j (clear_status_write_in_flight item (mark_status_write_in_flight item m)) ≡ false
  unfolding writing clear_status_write_in_flight mark_status_write_in_flight
  clear-mark-writing = ground (
    arith,
    Dict.lookup-erase j item (Dict.insert item true m.in_flight),
    Dict.lookup-insert j item true m.in_flight,
  )

  clear-remember-writing :
      (version : Text)
      → writing j (
          clear_status_write_in_flight item
            (remember_status_write item version (mark_status_write_in_flight item m)))
        ≡ false
  unfolding writing clear_status_write_in_flight mark_status_write_in_flight remember_status_write
  clear-remember-writing version = ground (
    arith,
    Dict.lookup-erase j item (Dict.insert item true m.in_flight),
    Dict.lookup-insert j item true m.in_flight,
  )

module _ {D : Resources} {K : Kube} {F : Fetcher} (now : ℕ) (j : QueueItem) where
  update_status-writing :
      (raw : D.Raw) (cr : KrypticSecret) (result : SyncResult) (c : Cluster D K F)
      → writing j c.memory ≡ false
      → writing j (update_status now raw cr result c).1.memory ≡ false
  unfolding update_status
  update_status-writing raw cr result c free =
      let item : QueueItem = record { namespace = cr.namespace; name = cr.name } in
      let status = new_status now cr result in
      elim (Result-cases (D.set_status status raw)) [
        | inl (e, broken) ↦ rw (broken, update_status) free
        | inr (updated, set) ↦
            elim (Result-cases (write_status D item status updated c.resources).0) [
              | inl (e, failing) ↦
                  rw (set, failing, update_status) (clear-mark-writing j item c.memory free)
              | inr (written, done) ↦
                  rw (set, done, update_status)
                    (clear-remember-writing j item c.memory free (D.resource_version written))
            ]
      ]

  module _ (L : Library) (r : Reconciler) (watched : Text) (item : QueueItem) (c : Cluster D K F)
      (free : writing j c.memory ≡ false) where
    reconcile_live-writing :
        (raw : D.Raw) (cr : KrypticSecret) (c' : Cluster D K F)
        → c'.memory ≡ c.memory
        → writing j (reconcile_live L r now raw cr c').1.memory ≡ false
    unfolding reconcile_live
    reconcile_live-writing raw cr c' same =
        let (result, world) = reconcile L r cr c'.world in
        ground
          (arith, update_status-writing raw cr result (record c' { world = world }) (rw same free))

    -- A pass leaves no mark behind: what it marks as being written it clears, however it ends.
    pub reconcile_one-writing : writing j (reconcile_one L r watched now item c).1.memory ≡ false
    unfolding reconcile_one
    reconcile_one-writing = elim (Result-cases (D.get item c.resources).0) [
      | inl (e, missing) ↦ ground arith
      | inr (raw, found) ↦ elim (Result-cases (D.decode raw)) [
        | inl (e, broken) ↦ ground arith
        | inr (cr, decoded) ↦
            let s = (D.get item c.resources).1 in
            ground (
              arith,
              reconcile_live-writing raw cr (record c { resources = s }) refl,
              reconcile_live-writing raw cr
                  (record c { resources = (set_finalizer D raw cr.namespace true s).1 }) refl,
            )
      ]
    ]
