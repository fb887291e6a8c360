-- ===== src/Controller/Manager.antt =====
-- internal/controller/manager.go: the memory of own status writes, which the mutex guards, and the
-- body of the watch loop. Each function here is one critical section.
pub mod Echo
pub mod Status
pub mod One
pub mod Run
pub mod Unstructured
pub mod Finalizer
use kryptic_k8s_operator.Base.Dict
use kryptic_k8s_operator.Base.Dict.{Dict}
use kryptic_k8s_operator.Base.{
  Bool, true, false, ◌&&◌, ◌||◌, not, Option, none, some, List, [], ◌∷◌, Text, text, Eq, ◌==◌,
  text_eq, text_dec, arith, if◌then◌else◌, is_empty,
}
use mathlib.Core.Logic.{dite}

-- `queueItem`
pub record QueueItem : Type 0 where
  pub namespace : Text
  pub name : Text

item_dec : Discrete QueueItem
item_dec i j =
    dite (text_dec i.namespace j.namespace)
      (λ p.
        dite (text_dec i.name j.name) (λ q. yes (λ d. record { namespace = p d; name = q d }))
          (λ n. no (λ e. n (λ d. (e d).name))))
      (λ n. no (λ e. n (λ d. (e d).namespace)))

-- Shut in proofs, as that of texts.
instance unfoldable pub item_eq : Eq QueueItem
unfolding item_dec
item_eq = record { dec = item_dec }

-- What `mu` guards: `lastStatusWrite` and `statusWriteInFlight`.
pub record Memory : Type 0 where
  pub last_status_write : Dict QueueItem Text
  pub in_flight : Dict QueueItem Bool

-- `rememberStatusWrite`
unfoldable pub remember_status_write : QueueItem → Text → Memory → Memory
remember_status_write item version m = record m {
  last_status_write = Dict.insert item version m.last_status_write;
}

-- `m.statusWriteInFlight[item]`
unfoldable pub writing : QueueItem → Memory → Bool
writing item m = elim (Dict.lookup item m.in_flight) [ none ↦ false | some b ↦ b ]

-- `m.lastStatusWrite[item]`
unfoldable pub last_write : QueueItem → Memory → Text
last_write item m = elim (Dict.lookup item m.last_status_write) [ none ↦ [] | some v ↦ v ]

-- `isOwnStatusWrite`
unfoldable pub is_own_status_write : QueueItem → Text → Memory → Bool
is_own_status_write item version m =
    if writing item m then true else not (version == []) && last_write item m == version

-- `forgetStatusWrite`
unfoldable pub forget_status_write : QueueItem → Memory → Memory
forget_status_write item m = record {
  last_status_write = Dict.erase item m.last_status_write;
  in_flight = Dict.erase item m.in_flight;
}

-- `markStatusWriteInFlight`
unfoldable pub mark_status_write_in_flight : QueueItem → Memory → Memory
mark_status_write_in_flight item m = record m { in_flight = Dict.insert item true m.in_flight }

-- `clearStatusWriteInFlight`
unfoldable pub clear_status_write_in_flight : QueueItem → Memory → Memory
clear_status_write_in_flight item m = record m { in_flight = Dict.erase item m.in_flight }

-- `accepts`, for the namespace that the manager watches.
unfoldable pub accepts : Text → Text → Bool
accepts watched namespace = watched == [] || watched == namespace

-- A watch event whose object is a resource; the loop skips the others.
pub record Event : Type 0 where
  pub type_name : Text
  pub item : QueueItem
  pub resource_version : Text

-- The body of the loop in `watch`: the memory after the event, and whether its item is enqueued.
unfoldable pub handle_event : Text → Event → Memory → Memory × Bool
handle_event watched event m =
    if event.type_name == text "DELETED"
    then (forget_status_write event.item m, false)
    else if not (accepts watched event.item.namespace)
    then (m, false)
    else if event.type_name == text "MODIFIED"
        && is_own_status_write event.item event.resource_version m
    then (m, false)
    else (m, true)
