-- ===== src/Examples/Manager.antt =====
-- The theorems on the manager at concrete inputs.
use kryptic_k8s_operator.Base.{
  ◌≡◌, refl, ◌≢◌, ◌⊎◌, ◌↔◌, inl, true, false, [], ◌∷◌, ◌++◌, Text, text, contains, text_eq, some,
  ℕ_discrete,
}
use kryptic_k8s_operator.Errors.{ok, err, plain}
use kryptic_k8s_operator.Controller.Types.{
  KrypticSecret, auth_secret_name, target_secret_name, lease_finalizer,
}
use kryptic_k8s_operator.Controller.Reconcile.Backoff.{SyncResult}
use kryptic_k8s_operator.Controller.Reconcile.{revoke_cr_leases, read_lease_ids}
use kryptic_k8s_operator.Controller.Reconcile.Auth.{credentials}
use kryptic_k8s_operator.Controller.Cluster.{is_configured, allows_namespace, credentials_of}
use kryptic_k8s_operator.Base.Dict
use kryptic_k8s_operator.Controller.Manager.{
  QueueItem, Memory, handle_event, accepts, writing, last_write,
}
use kryptic_k8s_operator.Controller.Manager.Echo.{
  watch, mark, remember, clear, run, modified, echo_dropped, handle_event_iff,
}
use kryptic_k8s_operator.Controller.Manager.Finalizer.{
  has_finalizer, without_finalizer, next_finalizers, same_strings, next_finalizers_lem,
}
use kryptic_k8s_operator.Controller.Manager.Status.{
  status_unchanged, new_status, status_unchanged-new_status,
}
use kryptic_k8s_operator.Controller.Manager.One.{
  Resources, Cluster, reconcile_one, is_deleting, set_finalizer,
}
use kryptic_k8s_operator.Controller.Manager.One.Deletion.{
  reconcile_one_keeps_finalizer, reconcile_one_needs_finalizer, reconcile_one-writing,
}
use kryptic_k8s_operator.Examples.Fixtures.{
  memory_kube, plain_library, platform, settings, resource, leased_world,
}

abbrev pub backend : QueueItem
backend = record { namespace = text "team"; name = text "backend" }

abbrev pub no_memory : Memory
no_memory = record { last_status_write = []; in_flight = [] }

some_version : ◌≢◌ {A = Text} (text "7") []
unfolding text
some_version e = cc

modified_not_deleted : text "MODIFIED" ≢ text "DELETED"
unfolding text
modified_not_deleted e = cc

other_not_lease : text "other" ≢ lease_finalizer
unfolding text
other_not_lease e = cc

echo_dropped_example :
    ((handle_event []
        (modified backend (text "7"))
        (run [] (mark backend ∷ watch (modified backend (text "6")) ∷ []) no_memory).0).1
      ≡ false)
    × ((handle_event []
          (modified backend (text "7"))
          (run []
            (mark backend ∷ (watch (modified backend (text "6")) ∷ [])
              ++ (remember backend (text "7") ∷ clear backend ∷ []))
            no_memory).0).1
        ≡ false)
echo_dropped_example =
    echo_dropped [] backend (watch (modified backend (text "6")) ∷ []) (clear backend ∷ [])
      (text "7") no_memory some_version (inl modified_not_deleted, tt) (tt, tt)

handle_event_iff_example : ((handle_event [] (modified backend (text "8")) no_memory).1 ≡ true) ↔ (
    (text "MODIFIED" ≢ text "DELETED")
    × ((◌≡◌ {A = Text} [] []) ⊎ (◌≡◌ {A = Text} [] (text "team")))
    × ((text "MODIFIED" ≢ text "MODIFIED")
        ⊎ ((writing backend no_memory ≡ false)
            × ((text "8" ≡ []) ⊎ (last_write backend no_memory ≢ text "8")))))
handle_event_iff_example = handle_event_iff [] (modified backend (text "8")) no_memory

next_finalizers_lem_example :
    (has_finalizer (next_finalizers (text "other" ∷ []) true) ≡ true)
    × (contains (next_finalizers (text "other" ∷ []) true) (text "other")
        ≡ contains (text "other" ∷ []) (text "other"))
    × (same_strings
          (next_finalizers (text "other" ∷ []) true)
          (next_finalizers (next_finalizers (text "other" ∷ []) true) true)
        ≡ true)
next_finalizers_lem_example =
    next_finalizers_lem (text "other" ∷ []) true (text "other") other_not_lease

abbrev synced_result : SyncResult
synced_result = record {
  requeue_after = 60_000_000_000;
  synced_keys = 1;
  condition = record {
    type_name = text "Ready";
    status = text "True";
    reason = text "Synced";
    message = text "Synced";
    last_transition_time = 0;
    observed_generation = 0;
  };
}

status_unchanged-new_status_example :
    status_unchanged
      (record resource { status = new_status 5 resource synced_result })
      synced_result
    ≡ true
status_unchanged-new_status_example = status_unchanged-new_status 5 resource synced_result refl

-- One resource is all there is; its finalizers cannot be written.
abbrev pub stubborn : Resources
stubborn = record {
  State = KrypticSecret;
  Raw = KrypticSecret;
  get = λ item s. (ok s, s);
  update = λ namespace raw s. (err (plain (text "refused")), s);
  update_status = λ namespace raw s. (ok raw, raw);
  decode = λ raw. ok raw;
  finalizers = λ raw. raw.finalizers;
  set_finalizers = λ names raw. record raw { finalizers = names };
  set_status = λ status raw. ok (record raw { status = status });
  resource_version = λ raw. text "7";
}

abbrev pub cluster : Cluster stubborn memory_kube platform
cluster = record { resources = resource; memory = no_memory; world = leased_world }

abbrev deleted : KrypticSecret
deleted = record resource { deletion_timestamp = some 5; finalizers = lease_finalizer ∷ [] }

abbrev deleting_cluster : Cluster stubborn memory_kube platform
deleting_cluster = record { resources = deleted; memory = no_memory; world = leased_world }

revoke_fails :
    (revoke_cr_leases plain_library settings deleted leased_world).0 ≡ err (plain (text "down"))
unfolding Dict.lookup revoke_cr_leases read_lease_ids credentials auth_secret_name is_configured
    allows_namespace credentials_of text text_eq target_secret_name
revoke_fails = refl

accepts_all : accepts [] (text "team") ≡ true
unfolding accepts text_eq
accepts_all = refl

reconcile_one_keeps_finalizer_example :
    (reconcile_one plain_library settings [] 5 backend deleting_cluster).1.resources ≡ deleted
unfolding is_deleting ℕ_discrete
reconcile_one_keeps_finalizer_example =
    reconcile_one_keeps_finalizer plain_library settings [] 5 backend deleting_cluster deleted
      deleted accepts_all refl refl (plain (text "down")) refl revoke_fails

unmarked : has_finalizer [] ≡ false
unfolding has_finalizer
unmarked = refl

add_fails :
    (set_finalizer stubborn resource (text "team") true resource).0 ≡ err (plain (text "refused"))
unfolding set_finalizer next_finalizers same_strings without_finalizer
add_fails = refl

reconcile_one_needs_finalizer_example :
    (reconcile_one plain_library settings [] 5 backend cluster).1.world ≡ leased_world
unfolding is_deleting
reconcile_one_needs_finalizer_example =
    reconcile_one_needs_finalizer plain_library settings [] 5 backend cluster resource resource
      accepts_all refl refl (plain (text "refused")) refl unmarked add_fails

free_at_first : writing backend no_memory ≡ false
unfolding writing Dict.lookup
free_at_first = refl

reconcile_one-writing_example :
    writing backend (reconcile_one plain_library settings [] 5 backend cluster).1.memory ≡ false
reconcile_one-writing_example =
    reconcile_one-writing 5 backend plain_library settings [] backend cluster free_at_first
