-- ===== src/Examples/Leases.antt =====
-- The theorems on leases at concrete inputs.
use kryptic_k8s_operator.Base.Dict
use kryptic_k8s_operator.Base.Dict.{Dict}
use kryptic_k8s_operator.Base.{
  ◌≡◌, refl, ◌⊎◌, true, none, some, List, [], ◌∷◌, ◌++◌, Text, text, ◌==◌, text_eq, nat_eq,
  contains, if◌then◌else◌, ℕ_discrete,
}
use kryptic_k8s_operator.Strings.{trim_space}
use kryptic_k8s_operator.Errors.{ok, err, GoError}
use kryptic_k8s_operator.Krypticapi.{Bundle}
use kryptic_k8s_operator.Krypticapi.Client.{
  token, fresh_token, machine_keys, call, accept, open_org_key, derive_unwrap_key,
}
use kryptic_k8s_operator.Krypticapi.Decrypt.{derive_fresh, open_with}
use kryptic_k8s_operator.Krypticapi.Leases.{
  Session, id_at, stale_ids, expand_minted, bundle_and_keys, open_minted,
}
use kryptic_k8s_operator.Krypticapi.Leases.Work.{
  ensure_lease, read_minted, apply_item, apply_own_work,
}
use kryptic_k8s_operator.Krypticapi.Leases.Sync.{sync_dynamic, ensure_leases, revoke_leases}
use kryptic_k8s_operator.Krypticapi.Leases.Minting.{send, apply_item_reports, ensure_lease_readback}
use kryptic_k8s_operator.Krypticapi.Leases.Kept.{sync_dynamic_kept}
use kryptic_k8s_operator.Krypticapi.Leases.Expanded.{lookup-expand_minted}
use kryptic_k8s_operator.Dynsecret.Provider.{CompleteLease}
use kryptic_k8s_operator.Dynsecret.Apply.{failure_report}
use kryptic_k8s_operator.Examples.Platform.{
  crypto, http, targets, lease_json, session, creds, hint, item, minted,
}

apply_item_reports_example :
    (((apply_item crypto lease_json creds (text "t") (text "org") (text "org1") item session).0
        ≡ ok tt)
      × (done : CompleteLease) × (before : Session http targets) × (done.succeeded ≡ true)
      × (done.lease_id ≡ item.lease_id)
      × (send crypto lease_json creds (text "t") (text "org") done before ≡ (
        ok tt,
        (apply_item crypto lease_json creds (text "t") (text "org") (text "org1") item session).1,
      )))
    ⊎ ((e : GoError) × (before : Session http targets) × ((apply_item crypto lease_json creds
            (text "t")
            (text "org")
            (text "org1")
            item
            session).0
          ≡ err e)
        × ((apply_item crypto lease_json creds (text "t") (text "org") (text "org1") item session).1
            ≡ (send crypto lease_json creds
                (text "t")
                (text "org")
                (failure_report item e)
                before).1))
apply_item_reports_example =
    apply_item_reports crypto lease_json creds (text "t") (text "org") (text "org1") item session

abbrev pairs : Bundle
pairs =
    (text "DB_USERNAME", text "u1")
    ∷ (text "DB_PASSWORD", text "p1")
    ∷ (text "DB", text "db://host")
    ∷ []

reuses :
    (ensure_lease crypto lease_json creds
      (text "t")
      (text "org")
      (text "proj")
      (text "prod")
      hint
      (text "lease1")
      session).0
    ≡ ok (pairs, text "lease1")
unfolding ensure_lease read_minted open_minted expand_minted text text_eq trim_space Dict.put_all
    Dict.insert call accept ℕ_discrete
reuses = refl

ensure_lease_readback_example :
    (before : Session http targets) × (read_minted crypto lease_json creds
        (text "t")
        (text "org")
        (text "lease1")
        before
      ≡ (
        some pairs,
        (ensure_lease crypto lease_json creds
            (text "t")
            (text "org")
            (text "proj")
            (text "prod")
            hint
            (text "lease1")
            session).1,
      ))
ensure_lease_readback_example =
    ensure_lease_readback crypto lease_json creds (text "t") (text "org") (text "proj")
      (text "prod") (text "lease1") hint session pairs (text "lease1") reuses

abbrev known : Dict Text Text
known = (text "DB", text "lease1") ∷ []

found : Dict.lookup (text "DB") known ≡ some (text "lease1")
unfolding Dict.lookup text_eq text
found = refl

syncs :
    (sync_dynamic {H = http} {T = targets} crypto lease_json creds
      (text "proj")
      (text "prod")
      known
      session).0
    ≡ ok (pairs, known)
unfolding sync_dynamic token fresh_token bundle_and_keys machine_keys open_org_key derive_unwrap_key
    derive_fresh open_with apply_own_work ensure_leases ensure_lease read_minted open_minted
    expand_minted stale_ids revoke_leases text text_eq trim_space Dict.put_all Dict.insert
    Dict.lookup call accept ℕ_discrete
syncs = refl

sync_dynamic_kept_example :
    (id_at (text "DB") known ≡ text "lease1")
    ⊎ ((ids : List Text) × (before : Session http targets) × (contains ids (text "lease1") ≡ true)
        × ((revoke_leases crypto lease_json creds ids before).0 ≡ ok tt))
sync_dynamic_kept_example =
    sync_dynamic_kept crypto lease_json creds (text "proj") (text "prod") known session pairs known
      (text "DB") (text "lease1") syncs found

loops :
    (ensure_leases {H = http} {T = targets} crypto lease_json creds
      (text "t")
      (text "org")
      (text "proj")
      (text "prod")
      known
      (hint ∷ [])
      []
      []
      session).0
    ≡ ok (pairs, known)
unfolding ensure_leases ensure_lease read_minted open_minted expand_minted text text_eq trim_space
    Dict.put_all Dict.insert Dict.lookup call accept ℕ_discrete
loops = refl

lookup-expand_minted_example :
    (Dict.lookup
        (text "DB" ++ text "_USERNAME")
        (Dict.put_all [] (expand_minted (text "DB") minted))
      ≡ some minted.username)
    × (Dict.lookup
          (text "DB" ++ text "_PASSWORD")
          (Dict.put_all [] (expand_minted (text "DB") minted))
        ≡ some minted.password)
    × (Dict.lookup
          (text "DB" ++ text "_SESSION_TOKEN")
          (Dict.put_all [] (expand_minted (text "DB") minted))
        ≡ (if minted.session_token == [] then none else some minted.session_token))
    × (Dict.lookup
          (text "DB" ++ text "_ACCESS_KEY_ID")
          (Dict.put_all [] (expand_minted (text "DB") minted))
        ≡ (if minted.access_key_id == [] then none else some minted.access_key_id))
    × (Dict.lookup (text "DB") (Dict.put_all [] (expand_minted (text "DB") minted))
        ≡ (if trim_space minted.url == [] then none else some minted.url))
lookup-expand_minted_example = lookup-expand_minted (text "DB") minted
