-- ===== src/Controller/Manager/Status.antt =====
-- The status of a resource: `readyCondition`, `statusUnchanged`, and the status that
-- `updateStatus` writes. A time is in whole seconds, as RFC 3339 writes it.
use kryptic_k8s_operator.Base.{
  ℕ, ◌≡◌, refl, Bool, true, false, ◌&&◌, Option, none, some, List, [], ◌∷◌, Text, text, ◌==◌,
  ==-refl, text_eq, nat_eq, arith, if◌then◌else◌,
}
use kryptic_k8s_operator.Controller.Types.{Condition, KrypticSecret, KrypticSecretStatus}
use kryptic_k8s_operator.Controller.Reconcile.Backoff.{SyncResult}

-- `readyCondition`
unfoldable pub ready_condition : List Condition → Option Condition
ready_condition [] = none
ready_condition (c ∷ cs) =
    let rest = ready_condition cs in if c.type_name == text "Ready" then some c else rest

-- `statusUnchanged`, once the Ready condition is found.
unfoldable pub same_condition : Option Condition → Condition → Bool
same_condition none c = false
same_condition (some old) c =
    old.status == c.status && old.reason == c.reason && old.message == c.message

-- `statusUnchanged`
unfoldable pub status_unchanged : KrypticSecret → SyncResult → Bool
unfolding same_condition
status_unchanged cr result =
    cr.status.observed_generation == cr.generation
    && cr.status.synced_key_count == result.synced_keys
    && same_condition (ready_condition cr.status.conditions) result.condition

-- `transitionTime` of `updateStatus`: it moves only when the status does.
unfoldable pub transition_time : ℕ → Option Condition → Text → ℕ
transition_time now none status = now
transition_time now (some old) status =
    if old.status == status then old.last_transition_time else now

-- `lastSyncTime` of `updateStatus`
unfoldable pub sync_time : ℕ → Option ℕ → Text → Option ℕ
sync_time now old status = if status == text "True" then some now else old

-- The status map of `updateStatus`.
unfoldable pub new_status : ℕ → KrypticSecret → SyncResult → KrypticSecretStatus
new_status now cr result = record {
  conditions =
      record result.condition {
        last_transition_time =
            transition_time now (ready_condition cr.status.conditions) result.condition.status;
        observed_generation = cr.generation;
      }
      ∷ [];
  last_sync_time = sync_time now cr.status.last_sync_time result.condition.status;
  synced_key_count = result.synced_keys;
  observed_generation = cr.generation;
}

-- A write settles: with the new status in place, the same result is found unchanged, so it is not
-- written again, whatever the clock says.
pub status_unchanged-new_status :
    (now : ℕ) (cr : KrypticSecret) (result : SyncResult)
    → result.condition.type_name ≡ text "Ready"
    → status_unchanged (record cr { status = new_status now cr result }) result ≡ true
unfolding status_unchanged new_status ready_condition
status_unchanged-new_status now cr result is_ready = ground arith

-- After a write the transition time that a later result gets moves only if its status differs.
transition_time-new_status :
    (now later : ℕ) (cr : KrypticSecret) (first second : SyncResult)
    → first.condition.type_name ≡ text "Ready"
    → transition_time later
        (ready_condition (new_status now cr first).conditions)
        second.condition.status
      ≡ (if first.condition.status == second.condition.status
          then transition_time now (ready_condition cr.status.conditions) first.condition.status
          else later)
unfolding new_status ready_condition transition_time
transition_time-new_status now later cr first second is_ready = rw (is_ready, ==-refl) refl
