-- ===== src/Examples/Reconcile.antt =====
-- The theorems on the reconciler at concrete inputs.
use kryptic_k8s_operator.Base.Dict
use kryptic_k8s_operator.Base.{
  ◌≡◌, refl, ◌≢◌, ◌⊎◌, ◌≤◌, ◌↔◌, ◌||◌, none, [], ◌∷◌, text, contains, text_eq, is_empty,
  if◌then◌else◌,
}
use kryptic_k8s_operator.Errors.{ok}
use kryptic_k8s_operator.Krypticapi.{Credentials}
use kryptic_k8s_operator.Controller.Types.{
  auth_secret_name, min_refresh_interval, refresh_interval_or_default,
}
use kryptic_k8s_operator.Controller.ApiUrl.{validate}
use kryptic_k8s_operator.Controller.ApiUrl.Accepted.{Accepted, validate_iff}
use kryptic_k8s_operator.Controller.Reconcile.Auth.{credentials}
use kryptic_k8s_operator.Controller.Reconcile.Backoff.{synced}
use kryptic_k8s_operator.Controller.Cluster.{is_configured, allows_namespace}
use kryptic_k8s_operator.Controller.Reconcile.Secrets.{select_keys, desired_secret, apply_secret}
use kryptic_k8s_operator.Controller.Reconcile.Apply.{written}
use kryptic_k8s_operator.Controller.Reconcile.Safety.{Settled, Fetched, reconcile-Settled}
use kryptic_k8s_operator.Controller.Reconcile.Contents.{
  lookup-select_keys, decode-written, annotation-written_no_ids,
}
use kryptic_k8s_operator.Controller.Reconcile.Granted.{Granted, credentials_iff}
use kryptic_k8s_operator.Controller.Reconcile.Requeue.{
  Schedules, reconcile-Schedules, reconcile_requeue_bounds,
}
use kryptic_k8s_operator.Controller.Reconcile.{reconcile, read_lease_ids, decode_ids, annotation_of}
use kryptic_k8s_operator.Examples.Fixtures.{
  memory_kube, memory_kube-IsLawful, plain_urls, plain_library, platform, served, settings,
  resource, foreign, empty_world,
}

reconcile-Settled_example :
    Settled plain_library resource
      (text "team")
      (text "backend-env")
      (λ bundle lease_ids.
        (creds : Credentials) × ((credentials memory_kube plain_urls settings resource
            empty_world.kube).0
          ≡ ok creds)
        × Fetched platform resource creds bundle lease_ids)
      empty_world.kube
      (reconcile plain_library settings resource empty_world)
reconcile-Settled_example =
    reconcile-Settled plain_library resource (text "team") (text "backend-env") memory_kube-IsLawful
      settings empty_world

reconcile-Schedules_example :
    Schedules
      (refresh_interval_or_default plain_library.parse_duration resource.spec)
      (reconcile plain_library settings resource empty_world).0
reconcile-Schedules_example = reconcile-Schedules plain_library settings resource empty_world

reconcile_requeue_bounds_example :
    (min_refresh_interval ≤ (reconcile plain_library settings resource empty_world).0.requeue_after)
    × (((reconcile plain_library settings resource empty_world).0.condition.reason
          ≢ text "ConfigurationError")
        ⊎ (600_000_000_000
            ≤ (reconcile plain_library settings resource empty_world).0.requeue_after))
reconcile_requeue_bounds_example =
    reconcile_requeue_bounds plain_library settings resource empty_world

credentials_iff_example :
    ((credentials memory_kube plain_urls settings resource empty_world.kube).0
      ≡ ok (record {
        base_url = text "https://pipelines.kryptic.dev";
        client_id = text "kmi_1";
        client_secret = text "ksm_1";
      }))
    ↔ Granted memory_kube plain_urls settings resource empty_world.kube (record {
      base_url = text "https://pipelines.kryptic.dev";
      client_id = text "kmi_1";
      client_secret = text "ksm_1";
    })
credentials_iff_example =
    credentials_iff memory_kube plain_urls settings resource empty_world.kube (record {
      base_url = text "https://pipelines.kryptic.dev";
      client_id = text "kmi_1";
      client_secret = text "ksm_1";
    })

validate_iff_example :
    (validate plain_urls settings.api_url (text "https://pipelines.kryptic.dev") ≡ ok tt)
    ↔ Accepted plain_urls settings.api_url (text "https://pipelines.kryptic.dev")
validate_iff_example =
    validate_iff plain_urls settings.api_url (text "https://pipelines.kryptic.dev")

lookup-select_keys_example :
    Dict.lookup (text "TOKEN") (select_keys served (text "API_KEY" ∷ [])) ≡ (
      if is_empty (text "API_KEY" ∷ []) || contains (text "API_KEY" ∷ []) (text "TOKEN")
      then Dict.lookup (text "TOKEN") served
      else none)
unfolding text Dict.lookup text_eq
lookup-select_keys_example =
    lookup-select_keys served (text "API_KEY" ∷ []) (text "TOKEN") (refl, (refl, tt))

decode-written_example :
    decode_ids plain_library.unmarshal_ids (
      annotation_of (
        written
          (desired_secret plain_library.marshal_ids resource served
            ((text "DB", text "lease1") ∷ []))
          (ok foreign)))
    ≡ (text "DB", text "lease1") ∷ []
unfolding text
decode-written_example =
    decode-written plain_library.marshal_ids resource served ((text "DB", text "lease1") ∷ [])
      plain_library.unmarshal_ids (ok foreign) _ ((text "DB", text "lease1") ∷ []) (λ e. cc) refl
      (λ e. cc) refl

annotation-written_no_ids_example :
    annotation_of
      (written (desired_secret plain_library.marshal_ids resource served []) (ok foreign))
    ≡ annotation_of foreign
annotation-written_no_ids_example =
    annotation-written_no_ids plain_library.marshal_ids resource served foreign

-- A first reconcile creates the Secret with the selected key.
reconcile_creates :
    (reconcile plain_library settings resource empty_world).0.condition.reason ≡ text "Synced"
unfolding reconcile text text_eq credentials auth_secret_name is_configured allows_namespace
    read_lease_ids apply_secret synced
reconcile_creates = refl
