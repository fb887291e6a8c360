-- ===== src/Controller/Reconcile/Contents.antt =====
-- What a Secret holds after a successful write: data, ownership, labels, annotations and lease ids.
use kryptic_k8s_operator.Base.{
  ◌≡◌, refl, ◌∙◌, ◌≢◌, inl, inr, true, ◌||◌, Option, none, some, List, [], ◌∷◌, Text, arith,
  ==-refl, contains, Option-cases, text_eq, is_empty, if◌then◌else◌,
}
use kryptic_k8s_operator.Base.Dict
use kryptic_k8s_operator.Base.Dict.{Dict, NodupKeys, or_value}
use kryptic_k8s_operator.Errors.{Result, ok, err}
use kryptic_k8s_operator.Krypticapi.{Bundle}
use kryptic_k8s_operator.Controller.Types.{KrypticSecret, Secret, lease_ids_annotation}
use kryptic_k8s_operator.Controller.Reconcile.Secrets.{
  pick_keys, select_keys, merge_into, with_lease_ids, desired_secret, updated_secret,
  owned_by_this_cr,
}
use kryptic_k8s_operator.Controller.Reconcile.Apply.{written}
use kryptic_k8s_operator.Controller.Reconcile.{decode_ids, annotation_of}

lookup-pick_keys :
    (bundle : Bundle) (keys : List Text) (out : Dict Text Text) (k : Text)
    → Dict.lookup k (pick_keys bundle keys out) ≡ (
        if contains keys k
        then or_value (Dict.lookup k bundle) (Dict.lookup k out)
        else Dict.lookup k out)
unfolding pick_keys
lookup-pick_keys bundle [] out k = refl
lookup-pick_keys bundle (key ∷ keys) out k = elim (Option-cases (Dict.lookup key bundle)) [
  | inl missing ↦ rw (missing, pick_keys) (ground (arith, lookup-pick_keys bundle keys out k))
  | inr (v, found) ↦
      rw (found, pick_keys)
        (ground (
          arith,
          lookup-pick_keys bundle keys (Dict.insert key v out) k,
          Dict.lookup-insert k key v out,
        ))
]

-- The data of the produced Secret: of a bundle with one value for each key it has exactly the keys
-- that are asked for, or all where none are named, each with the bundle's value. So a key that is
-- gone from the bundle is gone from the Secret.
pub lookup-select_keys :
    (bundle : Bundle) (keys : List Text) (k : Text)
    → NodupKeys bundle
    → Dict.lookup k (select_keys bundle keys)
      ≡ (if is_empty keys || contains keys k then Dict.lookup k bundle else none)
unfolding select_keys
lookup-select_keys bundle [] k u =
    ground (arith, Dict.lookup-put_all k [] bundle u, Dict.lookup-nil {V = Text} k)
lookup-select_keys bundle (key ∷ keys) k u =
    ground (arith, lookup-pick_keys bundle (key ∷ keys) [] k, Dict.lookup-nil {V = Text} k)

module _ (marshal_ids : Dict Text Text → Option Text) (base : Dict Text Text) where
  with_lease_ids-NodupKeys :
      (ids : Dict Text Text) → NodupKeys (with_lease_ids marshal_ids base ids)
  unfolding with_lease_ids
  with_lease_ids-NodupKeys [] =
      Dict.erase-NodupKeys lease_ids_annotation _ (Dict.put_all-NodupKeys [] base tt)
  with_lease_ids-NodupKeys (id ∷ ids) = elim (Option-cases (marshal_ids (id ∷ ids))) [
    | inl broken ↦ rw (broken, with_lease_ids) (Dict.put_all-NodupKeys [] base tt)
    | inr (encoded, e) ↦
        rw (e, with_lease_ids)
          (Dict.insert-NodupKeys lease_ids_annotation encoded _ (Dict.put_all-NodupKeys [] base tt))
  ]

  -- The annotation that a produced Secret should have.
  lookup-with_lease_ids :
      (ids : Dict Text Text)
      → Dict.lookup lease_ids_annotation (with_lease_ids marshal_ids base ids) ≡ (
          if is_empty ids
          then none
          else or_value (marshal_ids ids) (Dict.lookup lease_ids_annotation (Dict.put_all [] base)))
  unfolding with_lease_ids
  lookup-with_lease_ids [] = rw (Dict.lookup-erase, ==-refl)
  lookup-with_lease_ids (id ∷ ids) = elim (Option-cases (marshal_ids (id ∷ ids))) [
    | inl broken ↦ rw (broken, with_lease_ids)
    | inr (encoded, e) ↦ rw (e, with_lease_ids, Dict.lookup-insert, ==-refl)
  ]

-- The annotations that were found.
abbrev annotations_of : Result Secret → Dict Text Text
annotations_of (ok existing) = existing.annotations
annotations_of (err _) = []

or_none {ℓ} : {V : Type ℓ} (o : Option V) → or_value o none ≡ o
or_none none = refl
or_none (some v) = refl

decode_ids-annotation_of :
    (unmarshal_ids : Text → Option (Dict Text Text)) (s : Secret) (encoded : Text)
    (back : Dict Text Text)
    → Dict.lookup lease_ids_annotation s.annotations ≡ some encoded
    → encoded ≢ []
    → unmarshal_ids encoded ≡ some back
    → decode_ids unmarshal_ids (annotation_of s) ≡ back
unfolding decode_ids annotation_of
decode_ids-annotation_of unmarshal_ids s encoded back at visible decoded = ground arith

module _ (marshal_ids : Dict Text Text → Option Text) (cr : KrypticSecret)
    (contents ids : Dict Text Text) where
  -- What a write leaves is owned by the resource, over whatever was found.
  written-owned :
      (prior : Result Secret)
      → owned_by_this_cr (written (desired_secret marshal_ids cr contents ids) prior) cr ≡ true
  unfolding owned_by_this_cr desired_secret updated_secret
  written-owned (ok existing) = rw (==-refl, ==-refl)
  written-owned (err e) = rw (==-refl, ==-refl)

  -- The annotation after a write: the new ids, or else what was there.
  lookup-written :
      (prior : Result Secret)
      → Dict.lookup lease_ids_annotation
          (written (desired_secret marshal_ids cr contents ids) prior).annotations
        ≡ or_value
            (Dict.lookup lease_ids_annotation
              (with_lease_ids marshal_ids cr.spec.template.annotations ids))
            (Dict.lookup lease_ids_annotation (annotations_of prior))
  unfolding desired_secret updated_secret merge_into
  lookup-written (ok existing) =
      Dict.lookup-put_all lease_ids_annotation existing.annotations _
        (with_lease_ids-NodupKeys marshal_ids cr.spec.template.annotations ids)
  lookup-written (err e) = rw (Dict.lookup-nil, or_none)

  -- Lease ids round-trip through the annotation: where there are some, and they are encoded as
  -- text that is not empty, the next reconcile reads what that text decodes to.
  pub decode-written :
      (unmarshal_ids : Text → Option (Dict Text Text)) (prior : Result Secret) (encoded : Text)
      (back : Dict Text Text)
      → ids ≢ []
      → marshal_ids ids ≡ some encoded
      → encoded ≢ []
      → unmarshal_ids encoded ≡ some back
      → decode_ids unmarshal_ids
          (annotation_of (written (desired_secret marshal_ids cr contents ids) prior))
        ≡ back
  decode-written unmarshal_ids prior encoded back some_ids e visible decoded =
      decode_ids-annotation_of unmarshal_ids _ encoded back
        (lookup-written prior ∙ present ids some_ids e) visible decoded
    where
      present :
          (l : Dict Text Text)
          → l ≢ []
          → marshal_ids l ≡ some encoded
          → or_value
              (Dict.lookup lease_ids_annotation
                (with_lease_ids marshal_ids cr.spec.template.annotations l))
              (Dict.lookup lease_ids_annotation (annotations_of prior))
            ≡ some encoded
      present [] n q = absurd (n refl)
      present (x ∷ l) n q = rw (lookup-with_lease_ids, q)

-- What is written over an existing Secret when no lease ids are left keeps the lease-ids annotation
-- that this Secret had, even though `withLeaseIDs` deletes it from what is wanted.
pub annotation-written_no_ids :
    (marshal_ids : Dict Text Text → Option Text) (cr : KrypticSecret) (contents : Dict Text Text)
    (existing : Secret)
    → annotation_of (written (desired_secret marshal_ids cr contents []) (ok existing))
      ≡ annotation_of existing
unfolding annotation_of
annotation-written_no_ids marshal_ids cr contents existing = ground (
  arith,
  lookup-written marshal_ids cr contents [] (ok existing),
  lookup-with_lease_ids marshal_ids cr.spec.template.annotations [],
)
