-- ===== src/Controller/Reconcile/Secrets.antt =====
-- The produced Secret: `selectKeys`, its labels and annotations, ownership, and `applySecret`.
use kryptic_k8s_operator.Base.Dict
use kryptic_k8s_operator.Base.Dict.{Dict}
use kryptic_k8s_operator.Base.{
  Bool, true, false, ◌&&◌, ◌||◌, Option, none, some, List, [], ◌∷◌, ◌++◌, Text, text, ◌==◌, text_eq,
  is_empty, if◌then◌else◌,
}
use kryptic_k8s_operator.Errors.{Result, kube_error, not_found, plain, Step, ok, err}
use kryptic_k8s_operator.Krypticapi.{Bundle}
use kryptic_k8s_operator.Controller.Types.{
  KrypticSecret, Secret, OwnerReference, api_version, kind, managed_by_label, managed_by_value,
  lease_ids_annotation, target_secret_name,
}
use kryptic_k8s_operator.Controller.Kube.{Kube}

-- The loop over the wanted keys.
unfoldable pub pick_keys : Bundle → List Text → Dict Text Text → Dict Text Text
pick_keys bundle [] out = out
pick_keys bundle (key ∷ keys) out =
    pick_keys bundle keys
      (elim (Dict.lookup key bundle) [ none ↦ out | some value ↦ Dict.insert key value out ])

-- `selectKeys`
unfoldable pub select_keys : Bundle → List Text → Dict Text Text
unfolding pick_keys
select_keys bundle [] = Dict.put_all [] bundle
select_keys bundle (key ∷ keys) = pick_keys bundle (key ∷ keys) []

-- The loop of `ownedByThisCR`.
unfoldable pub owned_by : KrypticSecret → List OwnerReference → Bool
owned_by cr [] = false
owned_by cr (owner ∷ rest) = owner.kind_name == kind && owner.name == cr.name || owned_by cr rest

unfoldable pub owned_by_this_cr : Secret → KrypticSecret → Bool
unfolding owned_by
owned_by_this_cr s cr = owned_by cr s.owner_references

-- `mergeLabels`
unfoldable pub merge_labels : Dict Text Text → Dict Text Text
merge_labels extra = Dict.put_all ((managed_by_label, managed_by_value) ∷ []) extra

-- `mergeInto`
unfoldable pub merge_into : Dict Text Text → Dict Text Text → Dict Text Text
merge_into target source = Dict.put_all target source

-- `withLeaseIDs`, over `json.Marshal`.
unfoldable pub with_lease_ids :
    (Dict Text Text → Option Text) → Dict Text Text → Dict Text Text → Dict Text Text
with_lease_ids marshal_ids base lease_ids =
    let out = Dict.put_all [] base in
    if is_empty lease_ids
    then Dict.erase lease_ids_annotation out
    else elim (marshal_ids lease_ids) [
      | none ↦ out
      | some encoded ↦ Dict.insert lease_ids_annotation encoded out
    ]

-- `secretType`
unfoldable pub secret_type : Text → Text
secret_type raw = if raw == [] then text "Opaque" else raw

abbrev pub owner_of : KrypticSecret → OwnerReference
owner_of cr = record {
  api_version_name = api_version;
  kind_name = kind;
  name = cr.name;
  uid = cr.uid;
  is_controller = some true;
  block_owner_deletion = some true;
}

-- `desired` of `applySecret`
unfoldable pub desired_secret :
    (Dict Text Text → Option Text) → KrypticSecret → Dict Text Text → Dict Text Text → Secret
desired_secret marshal_ids cr contents lease_ids = record {
  name = target_secret_name cr;
  namespace = cr.namespace;
  labels = merge_labels cr.spec.template.labels;
  annotations = with_lease_ids marshal_ids cr.spec.template.annotations lease_ids;
  owner_references = owner_of cr ∷ [];
  type_name = secret_type cr.spec.template.type_name;
  contents = contents;
}

-- The assignments to `existing`.
unfoldable pub updated_secret : Secret → Secret → Secret
updated_secret existing desired = record existing {
  contents = desired.contents;
  type_name = desired.type_name;
  labels = merge_into existing.labels desired.labels;
  annotations = merge_into existing.annotations desired.annotations;
  owner_references = desired.owner_references;
}

module _ (K : Kube) (quote : Text → Text) where
  -- `applySecret` once `Get` has answered.
  unfoldable pub write_over : KrypticSecret → Secret → Result Secret → Step K.State (Unit {0})
  write_over cr desired (err (kube_error not_found _)) s = K.create cr.namespace desired s
  write_over cr desired (err e) s = (err e, s)
  write_over cr desired (ok existing) s =
      if owned_by_this_cr existing cr
      then K.update cr.namespace (updated_secret existing desired) s
      else (
        err (
            plain (
              text "secret "
              ++ (quote (target_secret_name cr)
                  ++ text " already exists and is not owned by this KrypticSecret"))),
        s,
      )

  -- `applySecret`
  unfoldable pub apply_secret :
      (Dict Text Text → Option Text)
      → KrypticSecret
      → Dict Text Text
      → Dict Text Text
      → Step K.State (Unit {0})
  unfolding write_over
  apply_secret marshal_ids cr contents lease_ids s =
      let (r, s') = K.get cr.namespace (target_secret_name cr) s in
      write_over cr (desired_secret marshal_ids cr contents lease_ids) r s'
