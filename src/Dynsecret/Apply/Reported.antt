-- ===== src/Dynsecret/Apply/Reported.antt =====
-- What `Apply` tells the platform.
use kryptic_k8s_operator.Base.{◌≡◌, refl, ◌⊎◌, inl, inr, true, Text, nat_eq, text_eq, arith}
use kryptic_k8s_operator.Errors.{GoError, Step, Result, Result-cases, ok, err}
use kryptic_k8s_operator.Krypticapi.Decrypt.{Crypto}
use kryptic_k8s_operator.Dynsecret.Provider.{
  WorkItem, WorkContext, ProviderKind, CompleteLease, Minted, Targets,
}
use kryptic_k8s_operator.Dynsecret.Apply.{
  open_config, prepare, perform, complete_mint, complete_other, apply_work, apply_with,
  failure_report,
}

module _ (X : Crypto) (T : Targets) (org_key org_key_id : Text) (item : WorkItem) where
  complete_mint-ok :
      (work : WorkContext T.Config) (raw : Minted) (done : CompleteLease)
      → complete_mint X T org_key org_key_id item work raw ≡ ok done
      → (done.succeeded ≡ true) × (done.lease_id ≡ item.lease_id)
  unfolding complete_mint
  complete_mint-ok work raw done e = ground arith

  perform-ok :
      (provider : ProviderKind) (work : WorkContext T.Config) (s : T.State) (done : CompleteLease)
      → (perform X T org_key org_key_id item provider work s).0 ≡ ok done
      → (done.succeeded ≡ true) × (done.lease_id ≡ item.lease_id)
  unfolding perform complete_other
  perform-ok provider work s done e = ground (arith, complete_mint-ok work)

  pub apply_work-ok :
      (s : T.State) (done : CompleteLease)
      → (apply_work X T org_key org_key_id item s).0 ≡ ok done
      → (done.succeeded ≡ true) × (done.lease_id ≡ item.lease_id)
  unfolding apply_work
  apply_work-ok s done e = elim (Result-cases (open_config X T org_key item)) [
    | inl (e', broken) ↦ ground arith
    | inr (opened, found) ↦
        perform-ok opened.1 (prepare X T item opened.0 s).0 (prepare X T item opened.0 s).1 done
          (ground arith)
  ]

pub unit_cases : (r : Result (Unit {0})) → ((e : GoError) × (r ≡ err e)) ⊎ (r ≡ ok tt)
unit_cases (ok tt) = inr refl
unit_cases (err e) = inl (e, refl)

-- `Apply` succeeds if its completion was accepted, or else its last call reports its error.
pub apply_with_reports {ℓ} :
    {W : Type ℓ} (work : Step W CompleteLease) (complete : CompleteLease → Step W (Unit {0}))
    (item : WorkItem) (w : W)
    → (((apply_with work complete item w).0 ≡ ok tt)
        × (done : CompleteLease) × ((work w).0 ≡ ok done)
        × (complete done (work w).1 ≡ (ok tt, (apply_with work complete item w).1)))
      ⊎ ((e : GoError) × (before : W) × ((apply_with work complete item w).0 ≡ err e)
          × ((apply_with work complete item w).1 ≡ (complete (failure_report item e) before).1))
unfolding apply_with
apply_with_reports work complete item w = elim (Result-cases (work w).0) [
  | inl (e, broken) ↦ inr (e, (work w).1, ground arith, ground arith)
  | inr (done, worked) ↦ elim (unit_cases (complete done (work w).1).0) [
    | inl (e, refused) ↦ inr (e, (complete done (work w).1).1, ground arith, ground arith)
    | inr accepted ↦ inl (ground arith, done, worked, ground arith)
  ]
]
