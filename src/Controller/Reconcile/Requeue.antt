-- ===== src/Controller/Reconcile/Requeue.antt =====
-- When a resource comes back: bounds on the requeue of every branch of `Reconcile`.
use kryptic_k8s_operator.Base.Int.{ℤ}
use kryptic_k8s_operator.Base.{ℕ, ◌≤◌, ◌≡◌, ◌≢◌, ◌⊎◌, Option, Text, text, arith}
use kryptic_k8s_operator.Krypticapi.{Fetcher}
use kryptic_k8s_operator.Controller.Types.{
  KrypticSecret, KrypticSecretSpec, min_refresh_interval, refresh_interval_or_default,
}
use kryptic_k8s_operator.Controller.Kube.{Kube, Library, World}
use kryptic_k8s_operator.Controller.Reconcile.Backoff.{
  SyncResult, short_backoff, long_backoff, failed, synced,
}
use kryptic_k8s_operator.Controller.Reconcile.Auth.{Reconciler}
use kryptic_k8s_operator.Controller.Reconcile.{reconcile}

pub min-le-interval :
    (parse : Text → Option ℤ) (s : KrypticSecretSpec)
    → min_refresh_interval ≤ refresh_interval_or_default parse s
unfolding refresh_interval_or_default
min-le-interval parse s = ground arith

short_backoff_bounds :
    (interval : ℕ)
    → min_refresh_interval ≤ interval
    → (min_refresh_interval ≤ short_backoff interval) × (short_backoff interval ≤ interval)
unfolding short_backoff
short_backoff_bounds interval h = ground arith

long_backoff_bounds :
    (interval : ℕ) → (600_000_000_000 ≤ long_backoff interval) × (interval ≤ long_backoff interval)
unfolding long_backoff
long_backoff_bounds interval = ground arith

-- The reason of a result with the wait that belongs to it.
abbrev pub Schedules : ℕ → SyncResult → Type 0
Schedules interval result =
    ((result.condition.reason ≡ text "Synced")
      × (result.condition.status ≡ text "True")
      × (result.requeue_after ≡ interval))
    ⊎ ((result.condition.status ≡ text "False")
        × (((result.condition.reason ≡ text "AuthSecretInvalid")
              × (result.requeue_after ≡ interval))
            ⊎ ((result.condition.reason ≡ text "ConfigurationError")
                × (result.requeue_after ≡ long_backoff interval))
            ⊎ ((result.condition.reason ≡ text "FetchFailed")
                × (result.requeue_after ≡ short_backoff interval))
            ⊎ ((result.condition.reason ≡ text "SecretWriteFailed")
                × (result.requeue_after ≡ short_backoff interval))))

module _ {K : Kube} {F : Fetcher} (L : Library) (r : Reconciler) (cr : KrypticSecret)
    (w : World K F) where
  -- Every branch of a reconcile: ready, and back after the refresh interval; or not ready, and back
  -- after the interval for bad credentials, after the long backoff for a permanent error of the
  -- platform, and after the short one for any other failure of a fetch or of the write.
  pub reconcile-Schedules :
      Schedules (refresh_interval_or_default L.parse_duration cr.spec) (reconcile L r cr w).0
  unfolding reconcile failed synced
  reconcile-Schedules = ground arith

  -- However a reconcile ends, the resource comes back after thirty seconds at the earliest, and
  -- after ten minutes at the earliest from a configuration error.
  pub reconcile_requeue_bounds :
      (min_refresh_interval ≤ (reconcile L r cr w).0.requeue_after)
      × (((reconcile L r cr w).0.condition.reason ≢ text "ConfigurationError")
          ⊎ (600_000_000_000 ≤ (reconcile L r cr w).0.requeue_after))
  unfolding text
  reconcile_requeue_bounds = ground (
    arith,
    reconcile-Schedules,
    min-le-interval L.parse_duration cr.spec,
    short_backoff_bounds (refresh_interval_or_default L.parse_duration cr.spec),
    long_backoff_bounds (refresh_interval_or_default L.parse_duration cr.spec),
  )
