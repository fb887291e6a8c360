-- ===== src/Krypticapi/Leases/Minting.antt =====
-- What a work item tells the platform, and where minted credentials come from.
use kryptic_k8s_operator.Base.{
  ◌≡◌, ◌⊎◌, inl, inr, true, some, Option-cases, [], Text, text, text_eq, text_dec, nat_eq, arith,
}
use kryptic_k8s_operator.Errors.{GoError, Step, Result-cases, ok, err}
use kryptic_k8s_operator.Krypticapi.{Credentials, Bundle}
use kryptic_k8s_operator.Krypticapi.Decrypt.{Crypto, DynamicHint}
use kryptic_k8s_operator.Krypticapi.Client.{Http, call}
use kryptic_k8s_operator.Krypticapi.Leases.{LeaseJson, Session, on_client, on_targets, ignore_body}
use kryptic_k8s_operator.Krypticapi.Leases.Work.{
  apply_item, apply_lease_work, read_minted, request_lease, new_lease, ensure_lease,
}
use kryptic_k8s_operator.Dynsecret.Provider.{Targets, WorkItem, CompleteLease}
use kryptic_k8s_operator.Dynsecret.Apply.{apply_work, failure_report}
use kryptic_k8s_operator.Dynsecret.Apply.Reported.{unit_cases, apply_work-ok, apply_with_reports}

module _ {H : Http} {T : Targets} (X : Crypto) (J : LeaseJson) (creds : Credentials) (token : Text)
    (org_key : Text) where
  -- The call that completes a lease.
  abbrev pub send : CompleteLease → Step (Session H T) (Unit {0})
  send completion = on_client (
      call creds token (text "POST") (text "/api/dynamic-secrets/work/complete")
        (J.marshal_complete completion) ignore_body)

  -- A work item ends in a report to the platform: either it succeeds, and the last call told the
  -- platform so, for the item's lease, and was accepted; or it fails with some error, and the last
  -- call told the platform of a failure of this lease, with this error's text.
  pub apply_item_reports :
      (org_key_id : Text) (item : WorkItem) (w : Session H T)
      → (((apply_item X J creds token org_key org_key_id item w).0 ≡ ok tt)
          × (done : CompleteLease) × (before : Session H T) × (done.succeeded ≡ true)
          × (done.lease_id ≡ item.lease_id)
          × (send done before ≡ (ok tt, (apply_item X J creds token org_key org_key_id item w).1)))
        ⊎ ((e : GoError) × (before : Session H T) × ((apply_item X J creds token org_key org_key_id
                item w).0
              ≡ err e)
            × ((apply_item X J creds token org_key org_key_id item w).1
                ≡ (send (failure_report item e) before).1))
  unfolding apply_item
  apply_item_reports org_key_id item w =
      elim (apply_with_reports (on_targets (apply_work X T org_key org_key_id item)) send item w) [
        | inr failed ↦ inr failed
        | inl (succeeded, done, worked, sent) ↦
            let (flag, lease) = apply_work-ok X T org_key org_key_id item w.targets done worked in
            inl (
              succeeded,
              done,
              record w { targets = (apply_work X T org_key org_key_id item w.targets).1 },
              flag,
              lease,
              sent,
            )
      ]

  new_lease_readback :
      (project_id environment : Text) (hint : DynamicHint) (w : Session H T) (pairs : Bundle)
      (id : Text)
      → (new_lease X J creds token org_key project_id environment hint w).0 ≡ ok (pairs, id)
      → (before : Session H T) × (read_minted X J creds token org_key id before
          ≡ (some pairs, (new_lease X J creds token org_key project_id environment hint w).1))
  unfolding new_lease
  new_lease_readback project_id environment hint w pairs id e =
      let answer = request_lease X J creds token project_id environment hint w in
      elim (Result-cases answer.0) [
        | inl (e', refused) ↦ ground arith
        | inr (lease, created) ↦
            let applied = apply_lease_work X J creds token org_key lease.id answer.1 in
            elim (unit_cases applied.0) [
              | inl (e', broken) ↦ ground arith
              | inr worked ↦
                  elim (Option-cases (read_minted X J creds token org_key lease.id applied.1).0) [
                    | inl missing ↦ ground arith
                    | inr (found, readable) ↦ (applied.1, ground arith)
                  ]
            ]
      ]

  -- A lease that is answered for a hint can be read: the credentials come out of the platform's
  -- envelope for that lease, opened under the org key, by the last call. It is the known lease, or
  -- one that the platform has created on request.
  pub ensure_lease_readback :
      (project_id environment existing_id : Text) (hint : DynamicHint) (w : Session H T)
      (pairs : Bundle) (id : Text)
      → (ensure_lease X J creds token org_key project_id environment hint existing_id w).0
        ≡ ok (pairs, id)
      → (before : Session H T) × (read_minted X J creds token org_key id before ≡ (
        some pairs,
        (ensure_lease X J creds token org_key project_id environment hint existing_id w).1,
      ))
  unfolding ensure_lease
  ensure_lease_readback project_id environment existing_id hint w pairs id e =
      elim (text_dec existing_id []) [
        | yes unknown ↦
            let (before, read) =
              new_lease_readback project_id environment hint w pairs id (ground arith) in
            (before, ground arith)
        | no known ↦ elim (Option-cases (read_minted X J creds token org_key existing_id w).0) [
          | inr (found, readable) ↦ (w, ground arith)
          | inl gone ↦
              let (before, read) =
                new_lease_readback project_id environment hint
                  (read_minted X J creds token org_key existing_id w).1 pairs id (ground arith) in
              (before, ground arith)
        ]
      ]
