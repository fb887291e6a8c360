-- ===== src/Controller/Manager/Unstructured.antt =====
-- `ToUnstructured` and `stripEmptyAuth` of internal/controller/manager.go, over JSON objects.
use kryptic_k8s_operator.Base.{
  ◌≡◌, refl, ◌≢◌, ◌⊎◌, inl, inr, Option, none, some, [], Text, text, ◌==◌, text_eq, arith,
  if◌then◌else◌, Bool-cases, Option-cases,
}
use kryptic_k8s_operator.Errors.{Result, ok, err}
use kryptic_k8s_operator.Controller.Types.{KrypticSecret, api_version, kind}

-- What `encoding/json` decodes into an `any`: a string, a `map[string]any`, or something else.
mutual
  pub data Json : Type 0 where
    string : Text → Json
    object : Object → Json
    other : Json

  pub data Object : Type 0 where
    empty : Object
    entry : Text → Json → Object → Object

-- `o[key]`
unfoldable pub field : Text → Object → Option Json
field key empty = none
field key (entry k v o) = if k == key then some v else field key o

-- `o[key] = value`
unfoldable pub set_field : Text → Json → Object → Object
set_field key value empty = entry key value empty
set_field key value (entry k v o) =
    let rest = set_field key value o in if k == key then entry key value o else entry k v rest

-- `delete(o, key)`
unfoldable pub delete_field : Text → Object → Object
delete_field key empty = empty
delete_field key (entry k v o) =
    let rest = delete_field key o in if k == key then rest else entry k v rest

-- `v.(map[string]any)` and `v.(string)`, of a field that may be missing.
unfoldable pub as_object : Option Json → Option Object
as_object (some (object o)) = some o
as_object _ = none

unfoldable pub as_string : Option Json → Text
as_string (some (string s)) = s
as_string _ = []

-- `name` of `stripEmptyAuth`: empty if the reference or the name is missing.
unfoldable pub auth_name : Object → Text
auth_name auth = elim (as_object (field (text "secretRef") auth)) [
  | none ↦ []
  | some ref ↦ as_string (field (text "name") ref)
]

-- `stripEmptyAuth`
unfoldable pub strip_empty_auth : Object → Object
strip_empty_auth o = elim (as_object (field (text "spec") o)) [
  | none ↦ o
  | some spec ↦ elim (as_object (field (text "auth") spec)) [
    | none ↦ o
    | some auth ↦
        if auth_name auth == []
        then set_field (text "spec") (object (delete_field (text "auth") spec)) o
        else o
  ]
]

-- `ToUnstructured`, over what `encoding/json` makes of the resource and back.
unfoldable pub to_unstructured : (KrypticSecret → Result Object) → KrypticSecret → Result Object
to_unstructured through_json cr = elim (through_json cr) [
  | err e ↦ err e
  | ok o ↦ ok (
      strip_empty_auth (
        set_field (text "kind") (string kind)
          (set_field (text "apiVersion") (string api_version) o)))
]

field-set_field :
    (key k : Text) (v : Json) (o : Object)
    → field k (set_field key v o) ≡ (if key == k then some v else field k o)
unfolding field set_field
field-set_field key k v empty = refl
field-set_field key k v (entry j w o) = ground (arith, field-set_field key k v o)

field-delete_field :
    (key k : Text) (o : Object)
    → field k (delete_field key o) ≡ (if key == k then none else field k o)
unfolding field delete_field
field-delete_field key k empty = ground arith
field-delete_field key k (entry j w o) = ground (arith, field-delete_field key k o)

-- The field of the object's `spec`.
abbrev pub spec_field : Text → Object → Option Json
spec_field key o = elim (as_object (field (text "spec") o)) [
  | none ↦ none
  | some spec ↦ field key spec
]

module _ (o spec : Object) (found : as_object (field (text "spec") o) ≡ some spec) where
  -- The object once its `spec` has no `auth`.
  abbrev without_auth : Object
  without_auth = set_field (text "spec") (object (delete_field (text "auth") spec)) o

  spec_field-without_auth :
      (key : Text)
      → spec_field key without_auth ≡ (if text "auth" == key then none else field key spec)
  unfolding as_object
  spec_field-without_auth key = ground (
    arith,
    field-set_field (text "spec") (text "spec") (object (delete_field (text "auth") spec)) o,
    field-delete_field (text "auth") key spec,
  )

  -- Whichever of the two objects results.
  strip-cases :
      (strip_empty_auth o ≡ without_auth)
      ⊎ ((strip_empty_auth o ≡ o)
          × ((auth : Object)
              → as_object (field (text "auth") spec) ≡ some auth
              → auth_name auth ≢ []))
  unfolding strip_empty_auth
  strip-cases = elim (Option-cases (as_object (field (text "auth") spec))) [
    | inl missing ↦ inr (ground arith, λ auth there empty. ground arith)
    | inr (auth, there) ↦ elim (Bool-cases (auth_name auth == [])) [
      | inl nameless ↦ inl (ground arith)
      | inr named ↦ inr (ground arith, λ auth' there' empty. ground arith)
    ]
  ]

-- After `stripEmptyAuth` an `auth` that is an object has a name that is not empty; every other field
-- of `spec`, and every other field of the object, is as it was.
strip_empty_auth_lem :
    (o spec auth : Object) (key k : Text)
    → as_object (field (text "spec") o) ≡ some spec
    → key ≢ text "auth"
    → k ≢ text "spec"
    → ((as_object (spec_field (text "auth") (strip_empty_auth o)) ≢ some auth)
        ⊎ (auth_name auth ≢ []))
      × (spec_field key (strip_empty_auth o) ≡ field key spec)
      × (field k (strip_empty_auth o) ≡ field k o)
unfolding as_object
strip_empty_auth_lem o spec auth key k found not_auth not_spec = elim (strip-cases o spec found) [
  | inl stripped ↦ ground (
    arith,
    spec_field-without_auth o spec found (text "auth"),
    spec_field-without_auth o spec found key,
    field-set_field (text "spec") k (object (delete_field (text "auth") spec)) o,
  )
  | inr (same, named) ↦ let name = named auth in ground arith
]
