-- ===== src/Krypticapi/Leases/Work.antt =====
-- internal/krypticapi/leases.go: the work on one lease, minting, reading and revoking it.
use kryptic_k8s_operator.Base.{
  Option, none, some, List, [], ◌∷◌, ◌++◌, Text, text, ◌==◌, text_eq, nat_eq, if◌then◌else◌,
}
use kryptic_k8s_operator.Errors.{plain, wrap, Step, ok, err, return, ◌>>=◌}
use kryptic_k8s_operator.Krypticapi.{Credentials, Bundle}
use kryptic_k8s_operator.Krypticapi.Decrypt.{Crypto, MachineKeys, DynamicHint}
use kryptic_k8s_operator.Krypticapi.Client.{Http, call, token, open_org_key}
use kryptic_k8s_operator.Dynsecret.Provider.{Targets, WorkItem}
use kryptic_k8s_operator.Dynsecret.Apply.{apply_work, apply_with}
use kryptic_k8s_operator.Krypticapi.Leases.{
  WorkBatch, LeaseDto, LeaseJson, Session, is_missing, on_client, on_targets, lease_path,
  ignore_body, open_minted,
}

module _ {H : Http} {T : Targets} (X : Crypto) (J : LeaseJson) where
  -- `applyItem`
  unfoldable pub apply_item :
      Credentials → Text → Text → Text → WorkItem → Step (Session H T) (Unit {0})
  apply_item creds token org_key org_key_id item =
      apply_with (on_targets (apply_work X T org_key org_key_id item))
        (λ completion. on_client (
          call creds token (text "POST") (text "/api/dynamic-secrets/work/complete")
            (J.marshal_complete completion) ignore_body))
        item

  -- The loop of `applyOwnWork`.
  unfoldable pub apply_items :
      Credentials → Text → Text → Text → List WorkItem → Step (Session H T) (Unit {0})
  unfolding apply_item
  apply_items creds token org_key org_key_id [] = return tt
  apply_items creds token org_key org_key_id (item ∷ items) = do
    _ ← apply_item creds token org_key org_key_id item
    apply_items creds token org_key org_key_id items

  -- `applyOwnWork`
  unfoldable pub apply_own_work : Credentials → Text → Text → Step (Session H T) (Unit {0})
  unfolding apply_items is_missing
  apply_own_work creds token org_key w =
      let (r, w') =
        on_client
          (call creds token (text "GET") (text "/api/dynamic-secrets/work") [] J.decode_batch) w in
      elim r [
        | err e ↦ (if is_missing e then ok tt else err e, w')
        | ok batch ↦ apply_items creds token org_key batch.org_key_id batch.items w'
      ]

  -- `applyLeaseWork`
  unfoldable pub apply_lease_work : Credentials → Text → Text → Text → Step (Session H T) (Unit {0})
  unfolding apply_item
  apply_lease_work creds token org_key lease_id w =
      let (r, w') =
        on_client
          (call creds token (text "GET") (lease_path lease_id (text "/work")) [] J.decode_batch)
          w in
      elim r [
        | err e ↦ (err e, w')
        | ok batch ↦ elim batch.items [
          | [] ↦ (err (plain (text "no work for lease " ++ lease_id)), w')
          | item ∷ _ ↦ apply_item creds token org_key batch.org_key_id item w'
        ]
      ]

  -- `readMinted`
  unfoldable pub read_minted :
      Credentials → Text → Text → Text → Session H T → Option Bundle × Session H T
  unfolding open_minted
  read_minted creds token org_key lease_id w =
      let (r, w') =
        on_client
          (call creds token (text "GET") (lease_path lease_id (text "/envelope")) []
            J.decode_envelope)
          w in
      (elim r [ err _ ↦ none | ok env ↦ open_minted X J org_key env ], w')

  -- The request of `ensureLease`.
  unfoldable pub request_lease :
      Credentials → Text → Text → Text → DynamicHint → Step (Session H T) LeaseDto
  request_lease creds token project_id environment hint = on_client (
      call creds token (text "POST")
        (text "/api/dynamic-secrets/leases?projectPublicId="
          ++ (H.query_escape project_id
              ++ (text "&environment="
                  ++ (H.query_escape environment ++ (text "&key=" ++ H.query_escape hint.key)))))
        (text "{}") J.decode_lease)

  -- `ensureLease` from the request on.
  unfoldable pub new_lease :
      Credentials → Text → Text → Text → Text → DynamicHint → Step (Session H T) (Bundle × Text)
  unfolding request_lease apply_lease_work read_minted
  new_lease creds token org_key project_id environment hint w =
      let (r, w1) = request_lease creds token project_id environment hint w in
      elim r [
        | err e ↦ (err (wrap (text "request lease " ++ (hint.key ++ text ": ")) e), w1)
        | ok lease ↦
            let (applied, w2) = apply_lease_work creds token org_key lease.id w1 in
            elim applied [
              | err e ↦ (err (wrap (text "mint " ++ (hint.key ++ text ": ")) e), w2)
              | ok _ ↦
                  let (found, w3) = read_minted creds token org_key lease.id w2 in
                  (
                    elim found [
                      | none ↦ err (
                          plain (
                            text "mint " ++ (hint.key ++ text ": envelope missing after complete")))
                      | some pairs ↦ ok (pairs, lease.id)
                    ],
                    w3,
                  )
            ]
      ]

  -- `ensureLease`
  unfoldable pub ensure_lease :
      Credentials
      → Text
      → Text
      → Text
      → Text
      → DynamicHint
      → Text
      → Step (Session H T) (Bundle × Text)
  unfolding new_lease read_minted
  ensure_lease creds token org_key project_id environment hint existing_id w =
      if existing_id == []
      then new_lease creds token org_key project_id environment hint w
      else (let (found, w') = read_minted creds token org_key existing_id w in
          elim found [
            | some pairs ↦ (ok (pairs, existing_id), w')
            | none ↦ new_lease creds token org_key project_id environment hint w'
          ])

  -- `revokeOne` once the work has arrived.
  unfoldable pub revoke_work :
      Credentials → Text → MachineKeys → WorkBatch → Step (Session H T) (Unit {0})
  unfolding apply_item
  revoke_work creds token keys batch = elim batch.items [
    | [] ↦ return tt
    | item ∷ _ ↦ do
      org_key ← on_client (open_org_key X creds keys batch.wrapped_org_key)
      apply_item creds token org_key batch.org_key_id item
  ]

  -- `revokeOne`
  unfoldable pub revoke_one :
      Credentials → Text → MachineKeys → Text → Step (Session H T) (Unit {0})
  unfolding revoke_work is_missing
  revoke_one creds token keys lease_id = do
    _ ← on_client (
        call creds token (text "POST") (lease_path lease_id (text "/revoke")) (text "{}")
          ignore_body)
    λ w.
        let (r, w') =
          on_client
            (call creds token (text "GET") (lease_path lease_id (text "/work")) [] J.decode_batch)
            w in
        elim r [
          | err e ↦ (if is_missing e then ok tt else err e, w')
          | ok batch ↦ revoke_work creds token keys batch w'
        ]
