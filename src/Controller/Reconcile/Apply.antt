-- ===== src/Controller/Reconcile/Apply.antt =====
-- What `applySecret` does to the Secrets of a lawful API server.
use kryptic_k8s_operator.Base.{
  ◌≡◌, refl, ◌⊎◌, inl, inr, Bool, true, false, ◌&&◌, Option, Text, ◌==◌, text_eq, if◌then◌else◌,
}
use kryptic_k8s_operator.Base.Dict.{Dict}
use kryptic_k8s_operator.Errors.{Result, ok, err, GoError, kube_error, not_found}
use kryptic_k8s_operator.Controller.Types.{KrypticSecret, Secret, target_secret_name}
use kryptic_k8s_operator.Controller.Kube.{Kube, IsLawful}
use kryptic_k8s_operator.Controller.Reconcile.Secrets.{
  apply_secret, write_over, desired_secret, updated_secret, owned_by_this_cr,
}

-- The Secret may be written: it is not there, or it is owned by the resource.
abbrev pub permits : KrypticSecret → Result Secret → Bool
permits cr (ok existing) = owned_by_this_cr existing cr
permits cr (err (kube_error not_found _)) = true
permits cr (err _) = false

-- What is written over what was found.
abbrev pub written : Secret → Result Secret → Secret
written desired (ok existing) = updated_secret existing desired
written desired (err _) = desired

abbrev is_ok {ℓ} : {A : Type ℓ} → Result A → Bool
is_ok (ok _) = true
is_ok (err _) = false

unit_cases : (r : Result (Unit {0})) → ((e : GoError) × (r ≡ err e)) ⊎ (r ≡ ok tt)
unit_cases (ok tt) = inr refl
unit_cases (err e) = inl (e, refl)

module _ (K : Kube) (cr : KrypticSecret) where
  -- The outcome of the write half, given what `Get` found: refused, and nothing has changed; or
  -- accepted, then it was permitted, and only the target has changed.
  abbrev pub Outcome :
      Secret → Result Secret → K.State → Result (Unit {0}) × K.State → Text → Text → Type 0
  Outcome desired prior s r ns name =
      ((e : GoError) × (r.0 ≡ err e) × ((K.get ns name r.1).0 ≡ (K.get ns name s).0))
      ⊎ ((r.0 ≡ ok tt)
          × (permits cr prior ≡ true)
          × ((K.get ns name r.1).0 ≡ (
              if ns == cr.namespace && name == target_secret_name cr
              then ok (written desired prior)
              else (K.get ns name s).0)))

  -- One write of `v`, accepted or refused.
  write-Outcome :
      (desired : Secret) (prior : Result Secret) (s : K.State) (r : Result (Unit {0}) × K.State)
      (ns name : Text) (v : Secret)
      → v.name ≡ target_secret_name cr
      → permits cr prior ≡ true
      → written desired prior ≡ v
      → ((e : GoError) → r.0 ≡ err e → (K.get ns name r.1).0 ≡ (K.get ns name s).0)
      → (r.0 ≡ ok tt
          → (K.get ns name r.1).0
            ≡ (if ns == cr.namespace && name == v.name then ok v else (K.get ns name s).0))
      → Outcome desired prior s r ns name
  write-Outcome desired prior s r ns name v named allowed same refused accepted =
      elim (unit_cases r.0) [
        | inl (e, failed) ↦ inl (e, failed, refused e failed)
        | inr done ↦ inr (done, allowed, rw (same, ← named) (accepted done))
      ]

module _ (K : Kube) (law : IsLawful K) (quote : Text → Text) (cr : KrypticSecret)
    (ns name : Text) where
  -- The update, made only if the Secret is owned.
  update-Outcome :
      (desired existing : Secret) (s : K.State) (refusal : GoError) (owned : Bool)
      → owned_by_this_cr existing cr ≡ owned
      → existing.name ≡ target_secret_name cr
      → Outcome K cr desired
          (ok existing)
          s
          (if owned
            then K.update cr.namespace (updated_secret existing desired) s
            else (err refusal, s))
          ns
          name
  unfolding updated_secret
  update-Outcome desired existing s refusal true owned named =
      write-Outcome K cr desired (ok existing) s _ ns name (updated_secret existing desired) named
        owned refl (law.get-update_refused ns name cr.namespace _ s)
        (law.get-update ns name cr.namespace _ s)
  update-Outcome desired existing s refusal false foreign named = inl (_, refl, refl)

  write_over-Outcome :
      (desired : Secret) (prior : Result Secret) (s : K.State)
      → desired.name ≡ target_secret_name cr
      → ((v : Secret) → prior ≡ ok v → v.name ≡ target_secret_name cr)
      → Outcome K cr desired prior s (write_over K quote cr desired prior s) ns name
  unfolding write_over
  write_over-Outcome desired (err (kube_error not_found m)) s named found =
      write-Outcome K cr desired (err (kube_error not_found m)) s _ ns name desired named refl refl
        (law.get-create_refused ns name cr.namespace desired s)
        (law.get-create ns name cr.namespace desired s)
  write_over-Outcome desired (ok existing) s named found =
      update-Outcome desired existing s _ (owned_by_this_cr existing cr) refl (found existing refl)
  write_over-Outcome desired (err e) s named found = inl (_, refl, refl)

  module _ (marshal_ids : Dict Text Text → Option Text) (contents lease_ids : Dict Text Text)
      (s : K.State) where
    pub apply_secret-Outcome :
        Outcome K cr
          (desired_secret marshal_ids cr contents lease_ids)
          (K.get cr.namespace (target_secret_name cr) s).0
          s
          (apply_secret K quote marshal_ids cr contents lease_ids s)
          ns
          name
    unfolding apply_secret desired_secret
    apply_secret-Outcome = rw (← law.get-get ns name cr.namespace (target_secret_name cr) s) (
        write_over-Outcome _ _ _ refl
          (λ v e. law.name-get cr.namespace (target_secret_name cr) v s e))
