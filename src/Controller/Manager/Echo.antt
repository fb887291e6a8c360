-- ===== src/Controller/Manager/Echo.antt =====
-- The watch loop and the reconcile loop as interleaved critical sections on the memory of own
-- writes: which watch events a status write hides.
use kryptic_k8s_operator.Base.Dict
use kryptic_k8s_operator.Base.{
  ◌≡◌, refl, ◌≢◌, ◌↔◌, ◌⊎◌, true, false, List, [], ◌∷◌, ◌++◌, All, Text, text, text_eq, arith,
  if◌then◌else◌,
}
use kryptic_k8s_operator.Controller.Manager.{
  QueueItem, item_eq, Memory, Event, handle_event, accepts, is_own_status_write, writing,
  last_write, remember_status_write, forget_status_write, mark_status_write_in_flight,
  clear_status_write_in_flight,
}

-- One critical section: the watch loop takes an event, or a status update enters, records the
-- version that it wrote, and leaves.
pub data Action : Type 0 where
  watch : Event → Action
  mark : QueueItem → Action
  remember : QueueItem → Text → Action
  clear : QueueItem → Action

-- The memory after an action, and what it enqueues.
unfoldable pub act : Text → Action → Memory → Memory × List QueueItem
act watched (watch event) m =
    let (m', added) = handle_event watched event m in (m', if added then event.item ∷ [] else [])
act watched (mark item) m = (mark_status_write_in_flight item m, [])
act watched (remember item version) m = (remember_status_write item version m, [])
act watched (clear item) m = (clear_status_write_in_flight item m, [])

-- A sequence of actions, in the order in which they get the lock.
unfoldable pub run : Text → List Action → Memory → Memory × List QueueItem
unfolding act
run watched [] m = (m, [])
run watched (a ∷ actions) m =
    let (m', added) = act watched a m in
    let rest = run watched actions m' in (rest.0, added ++ rest.1)

abbrev pub modified : QueueItem → Text → Event
modified item version = record {
  type_name = text "MODIFIED";
  item = item;
  resource_version = version;
}

module _ (watched : Text) (item : QueueItem) where
  -- The resource is not deleted, and the status update has not left.
  abbrev pub StillWriting : Action → Type 0
  StillWriting (watch event) = (event.type_name ≢ text "DELETED") ⊎ (event.item ≢ item)
  StillWriting (mark _) = Unit
  StillWriting (remember _ _) = Unit
  StillWriting (clear other) = other ≢ item

  -- The resource is not deleted, and no other version of it is recorded.
  abbrev pub StillLast : Text → Action → Type 0
  StillLast version (watch event) = (event.type_name ≢ text "DELETED") ⊎ (event.item ≢ item)
  StillLast version (mark _) = Unit
  StillLast version (remember other v) = (other ≢ item) ⊎ (v ≡ version)
  StillLast version (clear _) = Unit

  act-writing :
      (a : Action) (m : Memory)
      → StillWriting a
      → writing item m ≡ true
      → writing item (act watched a m).0 ≡ true
  unfolding act writing handle_event forget_status_write mark_status_write_in_flight
      clear_status_write_in_flight remember_status_write
  act-writing (watch event) m still e =
      ground (arith, Dict.lookup-erase item event.item m.in_flight)
  act-writing (mark j) m still e = ground (arith, Dict.lookup-insert item j true m.in_flight)
  act-writing (remember j v) m still e = e
  act-writing (clear j) m still e = ground (arith, Dict.lookup-erase item j m.in_flight)

  act-last_write :
      (version : Text) (a : Action) (m : Memory)
      → StillLast version a
      → last_write item m ≡ version
      → last_write item (act watched a m).0 ≡ version
  unfolding act last_write handle_event forget_status_write mark_status_write_in_flight
      clear_status_write_in_flight remember_status_write
  act-last_write version (watch event) m still e =
      ground (arith, Dict.lookup-erase item event.item m.last_status_write)
  act-last_write version (mark j) m still e = e
  act-last_write version (remember j v) m still e =
      ground (arith, Dict.lookup-insert item j v m.last_status_write)
  act-last_write version (clear j) m still e = e

  run-writing :
      (actions : List Action) (m : Memory)
      → All StillWriting actions
      → writing item m ≡ true
      → writing item (run watched actions m).0 ≡ true
  unfolding run
  run-writing [] m still e = e
  run-writing (a ∷ actions) m still e =
      run-writing actions (act watched a m).0 still.1 (act-writing a m still.0 e)

  run-last_write :
      (version : Text) (actions : List Action) (m : Memory)
      → All (StillLast version) actions
      → last_write item m ≡ version
      → last_write item (run watched actions m).0 ≡ version
  unfolding run
  run-last_write version [] m still e = e
  run-last_write version (a ∷ actions) m still e =
      run-last_write version actions (act watched a m).0 still.1
        (act-last_write version a m still.0 e)

  -- An event of the manager's own is not enqueued.
  handle_event-own :
      (version : Text) (m : Memory)
      → is_own_status_write item version m ≡ true
      → (handle_event watched (modified item version) m).1 ≡ false
  unfolding handle_event text
  handle_event-own version m own = ground arith

  own_of-writing :
      (version : Text) (m : Memory)
      → writing item m ≡ true
      → is_own_status_write item version m ≡ true
  unfolding is_own_status_write
  own_of-writing version m e = rw e

  own_of-last_write :
      (version : Text) (m : Memory)
      → version ≢ []
      → last_write item m ≡ version
      → is_own_status_write item version m ≡ true
  unfolding is_own_status_write
  own_of-last_write version m some_version e = ground arith

  run-append :
      (before after : List Action) (m : Memory)
      → (run watched (before ++ after) m).0 ≡ (run watched after (run watched before m).0).0
  unfolding run
  run-append [] after m = refl
  run-append (a ∷ before) after m = run-append before after (act watched a m).0

  mark-writing : (m : Memory) → writing item (mark_status_write_in_flight item m) ≡ true
  unfolding writing mark_status_write_in_flight
  mark-writing m = ground (arith, Dict.lookup-insert item item true m.in_flight)

  remember-last_write :
      (version : Text) (m : Memory)
      → last_write item (remember_status_write item version m) ≡ version
  unfolding last_write remember_status_write
  remember-last_write version m =
      ground (arith, Dict.lookup-insert item item version m.last_status_write)

  -- While a status update is between its two ends, no MODIFIED event of the resource is enqueued,
  -- of whatever version, unless the resource is deleted first: whatever else the two loops do in
  -- between. So a spec edit that falls there is dropped as well.
  modified_in_flight_dropped :
      (before : List Action) (version : Text) (m : Memory)
      → All StillWriting before
      → (handle_event watched (modified item version) (run watched (mark item ∷ before) m).0).1
        ≡ false
  unfolding run act
  modified_in_flight_dropped before version m still =
      handle_event-own version _
        (own_of-writing version _ (run-writing before _ still (mark-writing m)))

  -- The event that a status update brings about is dropped whenever it comes: while the update is in
  -- flight, and at any time after its version is recorded, whatever the two loops do in between, as
  -- long as the resource is not deleted, the update has not left before it records the version, and
  -- no other version is recorded after it.
  pub echo_dropped :
      (before after : List Action) (version : Text) (m : Memory)
      → version ≢ []
      → All StillWriting before
      → All (StillLast version) after
      → ((handle_event watched (modified item version) (run watched (mark item ∷ before) m).0).1
          ≡ false)
        × ((handle_event watched
              (modified item version)
              (run watched (mark item ∷ before ++ (remember item version ∷ after)) m).0).1
            ≡ false)
  echo_dropped before after version m some_version still last = (
    modified_in_flight_dropped before version m still,
    rw run-append (
        handle_event-own version _ (
          own_of-last_write version _ some_version
            (recorded (run watched (mark item ∷ before) m).0))),
  )
    where
      recorded :
          (m' : Memory)
          → last_write item (run watched (remember item version ∷ after) m').0 ≡ version
      recorded m' =
          unfold run act in run-last_write version after _ last (remember-last_write version m')

accepts_iff :
    (watched namespace : Text)
    → (accepts watched namespace ≡ true) ↔ ((watched ≡ []) ⊎ (watched ≡ namespace))
unfolding accepts
accepts_iff watched namespace = ground arith

-- What is enqueued: every event of an accepted namespace, but deletions and the manager's own.
pub handle_event_iff :
    (watched : Text) (event : Event) (m : Memory)
    → ((handle_event watched event m).1 ≡ true) ↔ (
        (event.type_name ≢ text "DELETED")
        × ((watched ≡ []) ⊎ (watched ≡ event.item.namespace))
        × ((event.type_name ≢ text "MODIFIED")
            ⊎ ((writing event.item m ≡ false)
                × ((event.resource_version ≡ [])
                    ⊎ (last_write event.item m ≢ event.resource_version)))))
unfolding handle_event is_own_status_write
handle_event_iff watched event m = ground (arith, accepts_iff watched event.item.namespace)
