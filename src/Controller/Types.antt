-- ===== src/Controller/Types.antt =====
-- internal/controller/types.go, and the Kubernetes types that the controller reads and writes.
-- Durations are nanoseconds. Times are numbers, 0 for Go's zero time. A status counts from 0.
use kryptic_k8s_operator.Base.Int.{ℤ, pos, negsuc}
use kryptic_k8s_operator.Base.Dict.{Dict}
use kryptic_k8s_operator.Base.{ℕ, suc, Bool, Option, none, some, List, Text, text, ◌==◌, text_eq}
use kryptic_k8s_operator.Base.{if◌then◌else◌, ltb, []}

abbrev pub second : ℕ
second = 1_000_000_000

abbrev pub minute : ℕ
minute = 60_000_000_000

abbrev pub default_refresh_interval : ℕ
default_refresh_interval = 300_000_000_000

abbrev pub min_refresh_interval : ℕ
min_refresh_interval = 30_000_000_000

abbrev pub api_version : Text
api_version = text "kryptic.dev/v1"

abbrev pub kind : Text
kind = text "KrypticSecret"

abbrev pub managed_by_label : Text
managed_by_label = text "app.kubernetes.io/managed-by"

abbrev pub managed_by_value : Text
managed_by_value = text "kryptic-operator"

abbrev pub lease_ids_annotation : Text
lease_ids_annotation = text "kryptic.dev/dynamic-lease-ids"

abbrev pub lease_finalizer : Text
lease_finalizer = text "kryptic.dev/dynamic-leases"

-- `metav1.Condition`
pub record Condition : Type 0 where
  pub type_name : Text
  pub status : Text
  pub reason : Text
  pub message : Text
  pub last_transition_time : ℕ
  pub observed_generation : ℕ

pub record KrypticSecretRef : Type 0 where
  pub name : Text

pub record KrypticSecretAuth : Type 0 where
  pub secret_ref : KrypticSecretRef

pub record KrypticSecretTemplate : Type 0 where
  pub type_name : Text
  pub labels : Dict Text Text
  pub annotations : Dict Text Text

pub record KrypticSecretSpec : Type 0 where
  pub project_id : Text
  pub environment : Text
  pub secret_name : Text
  pub refresh_interval : Text
  pub keys : List Text
  pub auth : Option KrypticSecretAuth
  pub template : KrypticSecretTemplate

pub record KrypticSecretStatus : Type 0 where
  pub conditions : List Condition
  pub last_sync_time : Option ℕ
  pub synced_key_count : ℕ
  pub observed_generation : ℕ

-- The parts of `metav1.ObjectMeta` that the controller uses.
pub record KrypticSecret : Type 0 where
  pub name : Text
  pub namespace : Text
  pub uid : Text
  pub generation : ℕ
  pub deletion_timestamp : Option ℕ
  pub finalizers : List Text
  pub spec : KrypticSecretSpec
  pub status : KrypticSecretStatus

-- `metav1.OwnerReference`
pub record OwnerReference : Type 0 where
  pub api_version_name : Text
  pub kind_name : Text
  pub name : Text
  pub uid : Text
  pub is_controller : Option Bool
  pub block_owner_deletion : Option Bool

-- `corev1.Secret`
pub record Secret : Type 0 where
  pub name : Text
  pub namespace : Text
  pub labels : Dict Text Text
  pub annotations : Dict Text Text
  pub owner_references : List OwnerReference
  pub type_name : Text
  pub contents : Dict Text Text

-- `KrypticSecretSpec.AuthSecretName`
unfoldable pub auth_secret_name : KrypticSecretSpec → Text
auth_secret_name s = elim s.auth [ none ↦ [] | some auth ↦ auth.secret_ref.name ]

-- `parsed < MinRefreshInterval`
unfoldable pub below_min : ℤ → Bool
below_min (pos n) = ltb n min_refresh_interval
below_min (negsuc n) = Bool.true

unfoldable pub magnitude : ℤ → ℕ
magnitude (pos n) = n
magnitude (negsuc n) = suc n

-- `KrypticSecretSpec.RefreshIntervalOrDefault`, over `time.ParseDuration`.
unfoldable pub refresh_interval_or_default : (Text → Option ℤ) → KrypticSecretSpec → ℕ
unfolding below_min magnitude
refresh_interval_or_default parse_duration s =
    if s.refresh_interval == []
    then default_refresh_interval
    else elim (parse_duration s.refresh_interval) [
      | none ↦ default_refresh_interval
      | some parsed ↦ if below_min parsed then default_refresh_interval else magnitude parsed
    ]

-- `KrypticSecret.TargetSecretName`
unfoldable pub target_secret_name : KrypticSecret → Text
target_secret_name cr = if cr.spec.secret_name == [] then cr.name else cr.spec.secret_name
