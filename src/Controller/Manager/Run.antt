-- ===== src/Controller/Manager/Run.antt =====
-- `Run` of internal/controller/manager.go, over the work queue, with the watch that feeds it. A pass
-- of `Run` and an event of the watch are one move each; what comes between within a pass is in Echo.
use kryptic_k8s_operator.Base.{
  ℕ, ◌≡◌, Bool, true, false, ◌||◌, Option, none, some, List, [], ◌∷◌, Text, ◌==◌, nat_eq, arith,
  if◌then◌else◌, ltb, Option-cases, inl, inr, text, text_eq, ◌≢◌, ◌⊎◌, ℕ_discrete, Bool-cases,
}
use kryptic_k8s_operator.Errors.{GoError, ok, err}
use kryptic_k8s_operator.Controller.Types.{KrypticSecret}
use kryptic_k8s_operator.Controller.Reconcile.{revoke_cr_leases}
use kryptic_k8s_operator.Controller.Manager.Echo.{handle_event_iff}
use kryptic_k8s_operator.Controller.Manager.One.Waits.{reconcile_one-zero}
use kryptic_k8s_operator.Krypticapi.{Fetcher}
use kryptic_k8s_operator.Controller.Kube.{Kube, Library}
use kryptic_k8s_operator.Controller.Reconcile.Auth.{Reconciler}
use kryptic_k8s_operator.Controller.Manager.{
  QueueItem, item_eq, Event, Memory, handle_event, accepts, writing, last_write,
}
use kryptic_k8s_operator.Controller.Manager.One.{Resources, Cluster, reconcile_one, is_deleting}

-- The work queue: `Get`, which gives none once the queue is shut down, `Done`, `Add` and `AddAfter`.
-- `cancelled` is the context's.
pub record Queue : Type 1 where
  pub State : Type 0
  pub get : State → Option QueueItem × State
  pub done : QueueItem → State → State
  pub add : QueueItem → State → State
  pub add_after : QueueItem → ℕ → State → State
  pub cancelled : State → Bool

-- What is documented of it: an item that is added is pending until `Get` gives it, and then in
-- processing until `Done`; an item in processing is not given again before that. An item is pending
-- where it waits, for its delay or for `Done`, or where the queue is shut down, which takes nothing
-- more.
pub record IsLawfulQueue (Q : Queue) : Type 0 where
  pub pending : Q.State → QueueItem → Bool
  pub processing : Q.State → QueueItem → Bool
  pub get-pending :
      (q : Q.State) (i j : QueueItem)
      → (Q.get q).0 ≡ some i
      → pending q j ≡ true
      → (j == i || pending (Q.get q).1 j) ≡ true
  pub get-processing :
      (q : Q.State) (i j : QueueItem)
      → (Q.get q).0 ≡ some i
      → processing (Q.get q).1 j ≡ (j == i || processing q j)
  pub get-none-pending :
      (q : Q.State) (j : QueueItem) → (Q.get q).0 ≡ none → pending (Q.get q).1 j ≡ pending q j
  pub get-none-processing :
      (q : Q.State) (j : QueueItem) → (Q.get q).0 ≡ none → processing (Q.get q).1 j ≡ processing q j
  pub done-pending : (q : Q.State) (i j : QueueItem) → pending (Q.done i q) j ≡ pending q j
  pub done-processing :
      (q : Q.State) (i j : QueueItem)
      → processing (Q.done i q) j ≡ (if j == i then false else processing q j)
  pub add-pending :
      (q : Q.State) (i j : QueueItem) → pending (Q.add i q) j ≡ (j == i || pending q j)
  pub add-processing : (q : Q.State) (i j : QueueItem) → processing (Q.add i q) j ≡ processing q j
  pub add_after-pending :
      (q : Q.State) (i j : QueueItem) (d : ℕ)
      → pending (Q.add_after i d q) j ≡ (j == i || pending q j)
  pub add_after-processing :
      (q : Q.State) (i j : QueueItem) (d : ℕ) → processing (Q.add_after i d q) j ≡ processing q j

-- A pass of the loop, or an event that the watch reads.
pub data Move : Type 0 where
  pass : Move
  watched_event : Event → Move

-- The manager while it runs.
pub record Running (Q : Queue) (D : Resources) (K : Kube) (F : Fetcher) : Type 0 where
  pub queue : Q.State
  pub cluster : Cluster D K F
  pub returned : Bool

module _ (Q : Queue) {D : Resources} {K : Kube} {F : Fetcher} (L : Library) (r : Reconciler)
    (watched : Text) (now : Cluster D K F → ℕ) where
  -- The body of the loop in `Run` after `Get`.
  unfoldable pub process : QueueItem → Running Q D K F → Running Q D K F
  process item m =
      let (wait, cluster) = reconcile_one L r watched (now m.cluster) item m.cluster in
      let queue = Q.done item m.queue in
      let requeued = if ltb 0 wait then Q.add_after item wait queue else queue in
      record { queue = requeued; cluster = cluster; returned = Q.cancelled requeued }

  -- The body of the loop in `Run`.
  unfoldable pub run_pass : Running Q D K F → Running Q D K F
  unfolding process
  run_pass m =
      let (got, queue) = Q.get m.queue in
      elim got [
        | none ↦ record m { queue = queue; returned = true }
        | some item ↦ process item (record m { queue = queue })
      ]

  -- An event of `watch`.
  unfoldable pub watch_event : Event → Running Q D K F → Running Q D K F
  watch_event event m =
      let (memory, enqueue) = handle_event watched event m.cluster.memory in
      record m {
        cluster = record m.cluster { memory = memory };
        queue = if enqueue then Q.add event.item m.queue else m.queue;
      }

  unfoldable pub move : Move → Running Q D K F → Running Q D K F
  unfolding run_pass watch_event
  move pass m = if m.returned then m else run_pass m
  move (watched_event event) m = watch_event event m

  unfoldable pub moves : List Move → Running Q D K F → Running Q D K F
  unfolding move
  moves [] m = m
  moves (step ∷ rest) m = moves rest (move step m)

-- An event that `watch` is to enqueue: not a deletion, in the watched namespace, and no echo of the
-- manager's own status write.
abbrev pub ToReconcile : Text → Event → Memory → Type 0
ToReconcile watched event memory =
    (event.type_name ≢ text "DELETED")
    × ((watched ≡ []) ⊎ (watched ≡ event.item.namespace))
    × ((event.type_name ≢ text "MODIFIED")
        ⊎ ((writing event.item memory ≡ false)
            × ((event.resource_version ≡ [])
                ⊎ (last_write event.item memory ≢ event.resource_version))))

module _ {D : Resources} {K : Kube} {F : Fetcher} (L : Library) (r : Reconciler) (watched : Text)
    (j : QueueItem) where
  -- Nothing is left to do for the item: it is out of scope, or the API server answers with an error
  -- in place of it, or it is being deleted and its leases are revoked.
  abbrev pub Gone : Cluster D K F → Type 0
  Gone c =
      (accepts watched j.namespace ≡ false)
      ⊎ (((e : GoError) × ((D.get j c.resources).0 ≡ err e))
          ⊎ ((raw : D.Raw) × (cr : KrypticSecret) × ((D.get j c.resources).0 ≡ ok raw)
              × (D.decode raw ≡ ok cr)
              × (is_deleting cr.deletion_timestamp ≡ true)
              × ((revoke_cr_leases L r cr c.world).0 ≡ ok tt)))

module _ (Q : Queue) (lawful : IsLawfulQueue Q) {D : Resources} {K : Kube} {F : Fetcher}
    (L : Library) (r : Reconciler) (watched : Text) (now : Cluster D K F → ℕ) (j : QueueItem) where
  -- No pass that is given the item finds nothing left to do for it.
  unfoldable pub NeverGone : List Move → Running Q D K F → Type 0
  NeverGone [] m = Unit
  NeverGone (pass ∷ rest) m =
      (((Q.get m.queue).0 ≢ some j) ⊎ (Gone L r watched j m.cluster → ⊥))
      × NeverGone rest (move Q L r watched now pass m)
  NeverGone (watched_event event ∷ rest) m =
      NeverGone rest (move Q L r watched now (watched_event event) m)

  abbrev Kept : Running Q D K F → Type 0
  Kept m = (lawful.pending m.queue j ≡ true) × (lawful.processing m.queue j ≡ false)

  -- A pass on another item.
  process-other :
      (item : QueueItem) (m : Running Q D K F)
      → (j == item) ≡ false
      → Kept m
      → Kept (process Q L r watched now item m)
  unfolding process
  process-other item m other (pending, processing) =
      let wait : ℕ = (reconcile_one L r watched (now m.cluster) item m.cluster).0 in
      ground (
        arith,
        lawful.add_after-pending (Q.done item m.queue) item j wait,
        lawful.add_after-processing (Q.done item m.queue) item j wait,
        lawful.done-pending m.queue item j,
        lawful.done-processing m.queue item j,
      )

  -- A pass on the item: it is asked for again, since something is left to do.
  process-same :
      (m : Running Q D K F)
      → (Gone L r watched j m.cluster → ⊥)
      → Kept (process Q L r watched now j m)
  unfolding process
  process-same m never =
      let wait : ℕ = (reconcile_one L r watched (now m.cluster) j m.cluster).0 in
      let over = reconcile_one-zero L r watched (now m.cluster) j m.cluster in
      let again : ltb 0 wait ≡ true = elim (ℕ_discrete wait 0) [
        | yes stops ↦ absurd (never (over stops))
        | no waits ↦ ground arith
      ] in
      ground (
        arith,
        lawful.add_after-pending (Q.done j m.queue) j j wait,
        lawful.add_after-processing (Q.done j m.queue) j j wait,
        lawful.done-processing m.queue j j,
      )

  run_pass-Kept :
      (m : Running Q D K F)
      → Kept m
      → (((Q.get m.queue).0 ≢ some j) ⊎ (Gone L r watched j m.cluster → ⊥))
      → Kept (run_pass Q L r watched now m)
  unfolding run_pass
  run_pass-Kept m (pending, processing) never =
      let q : Q.State = (Q.get m.queue).1 in
      elim (Option-cases (Q.get m.queue).0) [
        | inl shut ↦
            let still = lawful.get-none-pending m.queue j shut in
            let same = lawful.get-none-processing m.queue j shut in
            rw (shut, run_pass) (ground arith)
        | inr (item, taken) ↦
            let still = lawful.get-pending m.queue item j taken pending in
            let same = lawful.get-processing m.queue item j taken in
            elim (Bool-cases (j == item)) [
              | inr other ↦
                  rw (taken, run_pass)
                    (process-other item (record m { queue = q }) other (ground arith, ground arith))
              | inl own ↦
                  let mine : (Q.get m.queue).0 ≡ some j = ground arith in
                  rw (mine, run_pass) (process-same (record m { queue = q }) (ground arith))
            ]
      ]

  watch_event-Kept :
      (event : Event) (m : Running Q D K F)
      → lawful.processing m.queue j ≡ false
      → (lawful.pending m.queue j ≡ true)
        ⊎ ((event.item ≡ j) × ToReconcile watched event m.cluster.memory)
      → Kept (watch_event Q L r watched now event m)
  unfolding watch_event
  watch_event-Kept event m idle pending =
      let added = lawful.add-pending m.queue event.item j in
      let same = lawful.add-processing m.queue event.item j in
      let enqueued = (handle_event_iff watched event m.cluster.memory).1 in ground arith

  kept_lem :
      (steps : List Move) (m : Running Q D K F)
      → Kept m
      → NeverGone steps m
      → Kept (moves Q L r watched now steps m)
  unfolding moves move NeverGone
  kept_lem [] m kept never = kept
  kept_lem (pass ∷ rest) m kept (here, never) =
      kept_lem rest (move Q L r watched now pass m) (ground (arith, run_pass-Kept m kept here))
        never
  kept_lem (watched_event event ∷ rest) m kept never =
      kept_lem rest (move Q L r watched now (watched_event event) m)
        (watch_event-Kept event m kept.1 (inl kept.0)) never

  -- The loop loses no item. Where an item is not in processing, and it is pending (it waits, for its
  -- delay or for `Done`, or the queue is shut down), or the watch reads an event of it that is no
  -- deletion, in scope and no echo of the manager's own status write, then after every sequence of passes of the loop and events of the watch it is pending and not in
  -- processing, so that the queue may give it, unless a pass that is given it finds nothing left to
  -- do for it: it is out of scope, or the API server answers with an error in place of it, or it is
  -- being deleted and its leases are revoked.
  pub moves-Kept :
      (event : Event) (after : List Move) (m : Running Q D K F)
      → lawful.processing m.queue j ≡ false
      → (lawful.pending m.queue j ≡ true)
        ⊎ ((event.item ≡ j) × ToReconcile watched event m.cluster.memory)
      → NeverGone after (move Q L r watched now (watched_event event) m)
      → (lawful.pending (moves Q L r watched now (watched_event event ∷ after) m).queue j ≡ true)
        × (lawful.processing (moves Q L r watched now (watched_event event ∷ after) m).queue j
            ≡ false)
  unfolding moves move
  moves-Kept event after m idle start never =
      kept_lem after (move Q L r watched now (watched_event event) m)
        (watch_event-Kept event m idle start) never
