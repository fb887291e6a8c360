-- ===== src/Krypticapi/Leases/Kept.antt =====
-- What a sync of the leases keeps, and what it revokes.
use kryptic_k8s_operator.Base.Dict
use kryptic_k8s_operator.Base.Dict.{Dict, NodupKeys}
use kryptic_k8s_operator.Base.{
  ◌≡◌, ◌≢◌, ◌↔◌, ◌⊎◌, inl, inr, true, ◌&&◌, some, Bool-cases, List, [], ◌∷◌, map, Text, ◌==◌,
  text_eq, text_dec, contains, is_empty, arith, if◌then◌else◌,
}
use kryptic_k8s_operator.Errors.{Result, Result-cases, ok}
use kryptic_k8s_operator.Krypticapi.{Credentials, Bundle}
use kryptic_k8s_operator.Krypticapi.Decrypt.{Crypto, DynamicHint, MachineKeys, CipherBundle}
use kryptic_k8s_operator.Krypticapi.Client.{Http, token, open_org_key}
use kryptic_k8s_operator.Krypticapi.Leases.{
  LeaseJson, Session, id_at, stale_ids, bundle_and_keys, on_client,
}
use kryptic_k8s_operator.Krypticapi.Leases.Work.{ensure_lease, apply_own_work}
use kryptic_k8s_operator.Krypticapi.Leases.Sync.{
  ensure_leases, revoke_leases, sync_with_keys, sync_dynamic,
}
use kryptic_k8s_operator.Dynsecret.Provider.{Targets}
use kryptic_k8s_operator.Dynsecret.Apply.Reported.{unit_cases}

-- A known lease is stale unless it is kept under its key.
stale_ids-lookup :
    (leases known : Dict Text Text) (key id : Text)
    → Dict.lookup key known ≡ some id
    → id_at key leases ≢ id
    → contains (stale_ids leases known) id ≡ true
unfolding stale_ids
stale_ids-lookup leases [] key id found lost = ground (arith, Dict.lookup-nil {V = Text} key)
stale_ids-lookup leases ((k, i) ∷ known) key id found lost =
    ground (arith, Dict.lookup-cons key k i known, stale_ids-lookup leases known key id)

-- Only a known id is stale.
stale_ids-known :
    (leases known : Dict Text Text) (id : Text)
    → contains (stale_ids leases known) id ≡ true
    → NodupKeys known
    → (key : Text) × (Dict.lookup key known ≡ some id) × (id_at key leases ≢ id)
unfolding stale_ids
stale_ids-known leases [] id listed u = cc
stale_ids-known leases ((k, i) ∷ known) id listed (fresh, u) = elim (text_dec i id) [
  | no other ↦
      let (key, found, lost) = stale_ids-known leases known id (ground arith) u in
      (key, ground (arith, Dict.lookup-cons key k i known), lost)
  | yes same ↦ elim (text_dec (id_at k leases) i) [
    | no lost ↦ (k, ground (arith, Dict.lookup-cons k k i known), ground arith)
    | yes kept ↦
        let (key, found, lost) = stale_ids-known leases known id (ground arith) u in
        (key, ground (arith, Dict.lookup-cons key k i known), lost)
  ]
]

-- What `SyncDynamic` hands to `RevokeLeases`: the known leases that are not kept under their key,
-- and no others.
stale_ids_iff :
    (leases known : Dict Text Text) (id : Text)
    → NodupKeys known
    → (contains (stale_ids leases known) id ≡ true)
      ↔ ((key : Text) × (Dict.lookup key known ≡ some id) × (id_at key leases ≢ id))
stale_ids_iff leases known id u = (
  λ listed. stale_ids-known leases known id listed u,
  λ (key, found, lost). stale_ids-lookup leases known key id found lost,
)

not_empty :
    (known : Dict Text Text) (key id : Text)
    → Dict.lookup key known ≡ some id
    → is_empty known ≢ true
not_empty [] key id found e = ground (arith, Dict.lookup-nil {V = Text} key)
not_empty (_ ∷ known) key id found e = cc

module _ {H : Http} {T : Targets} (X : Crypto) (J : LeaseJson) (creds : Credentials)
    (project_id environment : Text) where
  sync_with_keys-revoked :
      (known : Dict Text Text) (value : Text) (keys : MachineKeys) (bundle : CipherBundle)
      (w : Session H T) (out : Bundle) (leases : Dict Text Text)
      → (sync_with_keys X J creds project_id environment known value keys bundle w).0
        ≡ ok (out, leases)
      → (before : Session H T) × ((revoke_leases X J creds (stale_ids leases known) before).0
          ≡ ok tt)
  unfolding sync_with_keys
  sync_with_keys-revoked known value keys bundle w out leases e =
      let opened : Result Text × Session H T =
        on_client (open_org_key X creds keys bundle.wrapped_org_key) w in
      elim (Result-cases opened.0) [
        | inl (e', broken) ↦ ground arith
        | inr (org_key, unwrapped) ↦
            let applied : Result (Unit {0}) × Session H T =
              apply_own_work X J creds value org_key opened.1 in
            elim (unit_cases applied.0) [
              | inl (e', broken) ↦ ground arith
              | inr worked ↦
                  let ensured : Result (Bundle × Dict Text Text) × Session H T =
                    ensure_leases X J creds value org_key project_id environment known
                      bundle.dynamic_secrets [] [] applied.1 in
                  elim (Result-cases ensured.0) [
                    | inl (e', broken) ↦ ground arith
                    | inr (pair, minted) ↦
                        elim (unit_cases
                          (revoke_leases X J creds (stale_ids pair.1 known) ensured.1).0) [
                            | inl (e', broken) ↦ ground arith
                            | inr revoked ↦ (ensured.1, ground arith)
                          ]
                  ]
            ]
      ]

  -- A sync that succeeds loses no lease: each known lease is kept under its key, or its id was given
  -- to a `RevokeLeases` that succeeded.
  pub sync_dynamic_kept :
      (known : Dict Text Text) (w : Session H T) (out : Bundle) (leases : Dict Text Text)
      (key id : Text)
      → (sync_dynamic X J creds project_id environment known w).0 ≡ ok (out, leases)
      → Dict.lookup key known ≡ some id
      → (id_at key leases ≡ id)
        ⊎ ((ids : List Text) × (before : Session H T) × (contains ids id ≡ true)
            × ((revoke_leases X J creds ids before).0 ≡ ok tt))
  unfolding sync_dynamic
  sync_dynamic_kept known w out leases key id e found = elim (text_dec (id_at key leases) id) [
    | yes kept ↦ inl kept
    | no lost ↦
        let answered : Result Text × Session H T = on_client (token X creds) w in
        elim (Result-cases answered.0) [
          | inl (e', refused) ↦ ground arith
          | inr (value, granted) ↦
              let fetched : Result (MachineKeys × CipherBundle) × Session H T =
                on_client (bundle_and_keys X creds value project_id environment) answered.1 in
              elim (Result-cases fetched.0) [
                | inl (e', refused) ↦ ground arith
                | inr ((keys, bundle), arrived) ↦
                    elim (Bool-cases (is_empty bundle.dynamic_secrets && is_empty known)) [
                      | inl nothing ↦ absurd (not_empty known key id found (ground arith))
                      | inr some_leases ↦
                          let (before, revoked) =
                            sync_with_keys-revoked known value keys bundle fetched.1 out leases
                              (ground arith) in
                          inr (
                            stale_ids leases known,
                            before,
                            stale_ids-lookup leases known key id found lost,
                            revoked,
                          )
                    ]
              ]
        ]
  ]

  -- The leases after the loop over the hints are those from before it, or leases with an id of
  -- hints of the bundle.
  ensure_leases_hints :
      (value org_key : Text) (known : Dict Text Text) (hints : List DynamicHint) (start : Bundle)
      (leases : Dict Text Text) (w : Session H T) (out : Bundle) (after : Dict Text Text)
      (key id : Text)
      → (ensure_leases X J creds value org_key project_id environment known hints start leases w).0
        ≡ ok (out, after)
      → Dict.lookup key after ≡ some id
      → (Dict.lookup key leases ≡ some id)
        ⊎ ((id ≢ []) × (contains (map (λ hint. hint.key) hints) key ≡ true))
  unfolding ensure_leases
  ensure_leases_hints value org_key known [] start leases w out after key id e found =
      inl (ground arith)
  ensure_leases_hints value org_key known (hint ∷ hints) start leases w out after key id e found =
      let ensured : Result (Bundle × Text) × Session H T =
        ensure_lease X J creds value org_key project_id environment hint (id_at hint.key known) w in
      elim (Result-cases ensured.0) [
        | inl (e', refused) ↦ ground arith
        | inr ((pairs, new_id), minted) ↦
            let next : Dict Text Text =
              if new_id == [] then leases else Dict.insert hint.key new_id leases in
            let before =
              ensure_leases_hints value org_key known hints (Dict.put_all start pairs) next
                ensured.1 out after key id (ground arith) found in
            ground (arith, Dict.lookup-insert key hint.key new_id leases)
      ]
