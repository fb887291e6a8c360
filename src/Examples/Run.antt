-- ===== src/Examples/Run.antt =====
-- The theorems on the loop of `Run` at concrete inputs: a queue as the list of what is due.
use kryptic_k8s_operator.Base.{
  ◌≡◌, refl, ◌⊎◌, Bool, true, false, ◌||◌, Option, none, some, List, [], ◌∷◌, text, ◌==◌, text_eq,
  arith, inl, inr, ap, ℕ_discrete, if◌then◌else◌, ◌≢◌,
}
use kryptic_k8s_operator.Errors.{GoError, plain, ok, err}
use kryptic_k8s_operator.Base.Dict
use kryptic_k8s_operator.Controller.Types.{KrypticSecret}
use kryptic_k8s_operator.Controller.Manager.{
  QueueItem, item_eq, Event, accepts, writing, last_write,
}
use kryptic_k8s_operator.Controller.Manager.One.{Resources, Cluster, reconcile_one, is_deleting}
use kryptic_k8s_operator.Controller.Manager.One.Waits.{reconcile_one-zero}
use kryptic_k8s_operator.Controller.Reconcile.{revoke_cr_leases}
use kryptic_k8s_operator.Controller.Manager.Run.{
  Queue, IsLawfulQueue, pass, watched_event, Running, ToReconcile, Gone, NeverGone, watch_event,
  move, moves, moves-Kept,
}
use kryptic_k8s_operator.Examples.Fixtures.{
  memory_kube, plain_library, platform, settings, resource, leased_world,
}
use kryptic_k8s_operator.Examples.Manager.{backend, no_memory, stubborn, cluster}

-- What waits, and what is in processing.
record Items : Type 0 where
  waiting : List QueueItem
  started : List QueueItem

abbrev without : QueueItem → List QueueItem → List QueueItem
without i [] = []
without i (k ∷ q) = let rest = without i q in if k == i then rest else k ∷ rest

abbrev is_in : List QueueItem → QueueItem → Bool
is_in [] j = false
is_in (i ∷ q) j = j == i || is_in q j

abbrev take_from : List QueueItem → List QueueItem → Option QueueItem × Items
take_from [] p = (none, record { waiting = []; started = p })
take_from (i ∷ w) p = (some i, record { waiting = w; started = i ∷ p })

abbrev due : Queue
due = record {
  State = Items;
  get = λ q. take_from q.waiting q.started;
  done = λ i q. record q { started = without i q.started };
  add = λ i q. record q { waiting = i ∷ q.waiting };
  add_after = λ i d q. record q { waiting = i ∷ q.waiting };
  cancelled = λ q. false;
}

is_in-without :
    (i j : QueueItem) (q : List QueueItem)
    → is_in (without i q) j ≡ (if j == i then false else is_in q j)
is_in-without i j [] = ground arith
is_in-without i j (k ∷ q) = ground (arith, is_in-without i j q)

take-pending :
    (w p : List QueueItem) (i j : QueueItem)
    → (take_from w p).0 ≡ some i
    → is_in w j ≡ true
    → (j == i || is_in (take_from w p).1.waiting j) ≡ true
take-pending [] p i j got there = ground arith
take-pending (k ∷ w) p i j got there = ground arith

take-processing :
    (w p : List QueueItem) (i j : QueueItem)
    → (take_from w p).0 ≡ some i
    → is_in (take_from w p).1.started j ≡ (j == i || is_in p j)
take-processing [] p i j got = ground arith
take-processing (k ∷ w) p i j got = ground arith

take-none :
    (w p : List QueueItem)
    → (take_from w p).0 ≡ none
    → ((take_from w p).1.waiting ≡ w) × ((take_from w p).1.started ≡ p)
take-none [] p shut = (refl, refl)
take-none (k ∷ w) p shut = ground arith

abbrev due_lawful : IsLawfulQueue due
due_lawful = record {
  pending = λ q. is_in q.waiting;
  processing = λ q. is_in q.started;
  get-pending = λ q. take-pending q.waiting q.started;
  get-processing = λ q. take-processing q.waiting q.started;
  get-none-pending = λ q j shut. ap (λ w. is_in w j) (take-none q.waiting q.started shut).0;
  get-none-processing = λ q j shut. ap (λ p. is_in p j) (take-none q.waiting q.started shut).1;
  done-pending = λ q i j. refl;
  done-processing = λ q i j. is_in-without i j q.started;
  add-pending = λ q i j. refl;
  add-processing = λ q i j. refl;
  add_after-pending = λ q i j d. refl;
  add_after-processing = λ q i j d. refl;
}

abbrev edited : Event
edited = record { type_name = text "MODIFIED"; item = backend; resource_version = text "8" }

abbrev idle : Running due stubborn memory_kube platform
idle = record { queue = record { waiting = []; started = [] }; cluster = cluster; returned = false }

not_deleted : text "MODIFIED" ≢ text "DELETED"
unfolding text
not_deleted e = cc

not_written : (writing backend no_memory ≡ false) × (last_write backend no_memory ≢ text "8")
unfolding writing last_write Dict.lookup text
not_written = (refl, λ e. cc)

edited-ToReconcile : ToReconcile [] edited no_memory
edited-ToReconcile = (not_deleted, inl refl, inr (not_written.0, inr not_written.1))

not-Gone : Gone plain_library settings [] backend cluster → ⊥
unfolding accepts is_deleting text_eq ℕ_discrete
not-Gone (inl outside) = ground arith
not-Gone (inr (inl (e, missing))) = cc
not-Gone (inr (inr (raw, cr, got, decoded, leaving, revoked))) =
    let same : cr ≡ resource = cc in
    let moment = ap (λ c. is_deleting c.deletion_timestamp) same in ground arith

pass-NeverGone :
    NeverGone due due_lawful plain_library settings []
      (λ c. 5)
      backend
      (pass ∷ [])
      (move due plain_library settings [] (λ c. 5) (watched_event edited) idle)
unfolding NeverGone move watch_event
pass-NeverGone = (inr not-Gone, tt)

moves-Kept_example :
    (is_in
        (moves due plain_library settings []
          (λ c. 5)
          (watched_event edited ∷ pass ∷ [])
          idle).queue.waiting
        backend
      ≡ true)
    × (is_in
          (moves due plain_library settings []
            (λ c. 5)
            (watched_event edited ∷ pass ∷ [])
            idle).queue.started
          backend
        ≡ false)
moves-Kept_example =
    moves-Kept due due_lawful plain_library settings [] (λ c. 5) backend edited (pass ∷ []) idle
      refl (inr (refl, edited-ToReconcile)) pass-NeverGone

-- The API server has nothing.
abbrev nothing : Resources
nothing = record stubborn { get = λ item s. (err (plain (text "not found")), s) }

abbrev empty_cluster : Cluster nothing memory_kube platform
empty_cluster = record { resources = resource; memory = no_memory; world = leased_world }

no_wait : (reconcile_one plain_library settings [] 5 backend empty_cluster).0 ≡ 0
unfolding reconcile_one accepts text_eq
no_wait = refl

reconcile_one-zero_example :
    (accepts [] (text "team") ≡ false)
    ⊎ (((e : GoError) × ((nothing.get backend resource).0 ≡ err e))
        ⊎ ((raw : KrypticSecret) × (cr : KrypticSecret) × ((nothing.get backend resource).0
              ≡ ok raw)
            × (nothing.decode raw ≡ ok cr)
            × (is_deleting cr.deletion_timestamp ≡ true)
            × ((revoke_cr_leases plain_library settings cr leased_world).0 ≡ ok tt)))
reconcile_one-zero_example =
    reconcile_one-zero plain_library settings [] 5 backend empty_cluster no_wait
