-- ===== src/Controller/Manager/One/Waits.antt =====
-- When a pass of `reconcileOne` asks for no other one.
use kryptic_k8s_operator.Base.{ℕ, ◌≡◌, ◌≢◌, ◌⊎◌, inl, inr, true, false, Text, arith, Bool-cases}
use kryptic_k8s_operator.Errors.{GoError, ok, err, Result-cases}
use kryptic_k8s_operator.Krypticapi.{Fetcher}
use kryptic_k8s_operator.Controller.Types.{KrypticSecret}
use kryptic_k8s_operator.Controller.Kube.{Kube, Library}
use kryptic_k8s_operator.Controller.Reconcile.Auth.{Reconciler}
use kryptic_k8s_operator.Controller.Reconcile.Backoff.{short_backoff}
use kryptic_k8s_operator.Controller.Reconcile.Requeue.{reconcile_requeue_bounds}
use kryptic_k8s_operator.Controller.Reconcile.{revoke_cr_leases}
use kryptic_k8s_operator.Controller.Manager.{QueueItem, accepts}
use kryptic_k8s_operator.Controller.Manager.One.{
  Resources, Cluster, is_deleting, set_finalizer, reconcile_live, reconcile_deleted,
  reconcile_present, reconcile_one,
}

module _ {D : Resources} {K : Kube} {F : Fetcher} (L : Library) (r : Reconciler) where
  live-wait :
      (now : ℕ) (raw : D.Raw) (cr : KrypticSecret) (c : Cluster D K F)
      → (reconcile_live L r now raw cr c).0 ≢ 0
  unfolding reconcile_live
  live-wait now raw cr c over = omega (arith, (reconcile_requeue_bounds L r cr c.world).0)

  present-wait :
      (now : ℕ) (raw : D.Raw) (cr : KrypticSecret) (c : Cluster D K F)
      → (reconcile_present L r now raw cr c).0 ≢ 0
  unfolding reconcile_present short_backoff
  present-wait now raw cr c over =
      let s = (set_finalizer D raw cr.namespace true c.resources).1 in
      ground (arith, live-wait now raw cr c, live-wait now raw cr (record c { resources = s }))

  deleted-wait :
      (raw : D.Raw) (cr : KrypticSecret) (c : Cluster D K F)
      → (reconcile_deleted L r raw cr c).0 ≡ 0
      → (revoke_cr_leases L r cr c.world).0 ≡ ok tt
  unfolding reconcile_deleted short_backoff
  deleted-wait raw cr c over = ground arith

  module _ (watched : Text) (now : ℕ) (item : QueueItem) (c : Cluster D K F) where
    -- A pass that asks for no other one found the item out of scope, or got no object for it from
    -- the API server, or the object is being deleted and its leases were revoked.
    pub reconcile_one-zero :
        (reconcile_one L r watched now item c).0 ≡ 0
        → (accepts watched item.namespace ≡ false)
          ⊎ (((e : GoError) × ((D.get item c.resources).0 ≡ err e))
              ⊎ ((raw : D.Raw) × (cr : KrypticSecret) × ((D.get item c.resources).0 ≡ ok raw)
                  × (D.decode raw ≡ ok cr)
                  × (is_deleting cr.deletion_timestamp ≡ true)
                  × ((revoke_cr_leases L r cr c.world).0 ≡ ok tt)))
    unfolding reconcile_one
    reconcile_one-zero over = elim (Bool-cases (accepts watched item.namespace)) [
      | inr outside ↦ inl outside
      | inl inside ↦ elim (Result-cases (D.get item c.resources).0) [
        | inl missing ↦ inr (inl missing)
        | inr (raw, found) ↦
            let c' : Cluster D K F = record c { resources = (D.get item c.resources).1 } in
            elim (Result-cases (D.decode raw)) [
              | inl (e, broken) ↦ ground arith
              | inr (cr, decoded) ↦ elim (Bool-cases (is_deleting cr.deletion_timestamp)) [
                | inl leaving ↦
                    inr (
                      inr (raw, cr, found, decoded, leaving, deleted-wait raw cr c' (ground arith)))
                | inr staying ↦ let waits = present-wait now raw cr c' in ground arith
              ]
            ]
      ]
    ]
