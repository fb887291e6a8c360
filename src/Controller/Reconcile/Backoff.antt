-- ===== src/Controller/Reconcile/Backoff.antt =====
-- The results of a reconcile and when it comes back: `failed`, `shortBackoff`, `longBackoff`.
use kryptic_k8s_operator.Base.{ℕ, ◌/◌, ◌++◌, Text, text, if◌then◌else◌, ltb}
use kryptic_k8s_operator.Strings.{decimal}
use kryptic_k8s_operator.Controller.Types.{Condition, min_refresh_interval}

pub record SyncResult : Type 0 where
  pub requeue_after : ℕ
  pub synced_keys : ℕ
  pub condition : Condition

abbrev ten_minutes : ℕ
ten_minutes = 600_000_000_000

ready : Text → Text → Text → Condition
ready status reason message = record {
  type_name = text "Ready";
  status = status;
  reason = reason;
  message = message;
  last_transition_time = 0;
  observed_generation = 0;
}

-- `failed`
unfoldable pub failed : Text → Text → ℕ → ℕ → SyncResult
unfolding ready
failed reason message requeue_after synced_keys = record {
  requeue_after = requeue_after;
  synced_keys = synced_keys;
  condition = ready (text "False") reason message;
}

-- The result at the end of `Reconcile`.
unfoldable pub synced : (Text → Text) → ℕ → ℕ → Text → SyncResult
unfolding ready
synced quote interval count name = record {
  requeue_after = interval;
  synced_keys = count;
  condition =
      ready (text "True") (text "Synced")
        (text "Synced " ++ (decimal count ++ (text " key(s) into secret " ++ quote name)));
}

unfoldable pub short_backoff : ℕ → ℕ
short_backoff interval =
    if ltb (interval / 4) min_refresh_interval then min_refresh_interval else interval / 4

unfoldable pub long_backoff : ℕ → ℕ
long_backoff interval = if ltb interval ten_minutes then ten_minutes else interval
