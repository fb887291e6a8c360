-- ===== src/Examples/Fixtures.antt =====
-- An API server that keeps Secrets in a function, a platform that answers from constants, and a
-- resource with its credentials Secret.
use kryptic_k8s_operator.Base.Int.{pos}
use kryptic_k8s_operator.Base.Dict.{Dict}
use kryptic_k8s_operator.Base.{
  ℕ, zero, suc, ◌≡◌, refl, ap, ◌∙◌, length, take, drop, true, false, ◌&&◌, Option, none, some, [],
  ◌∷◌, ◌++◌, Text, text, ◌==◌, text_eq, arith, if◌then◌else◌,
}
use kryptic_k8s_operator.Errors.{
  Result, ok, err, GoError, kube_error, not_found, other_reason, plain, Step,
}
use kryptic_k8s_operator.Krypticapi.{Bundle, Fetcher}
use kryptic_k8s_operator.Controller.Types.{KrypticSecret, KrypticSecretSpec, Secret}
use kryptic_k8s_operator.Controller.ApiUrl.{UrlLibrary}
use kryptic_k8s_operator.Controller.Kube.{Kube, IsLawful, Library, World}
use kryptic_k8s_operator.Controller.Reconcile.Auth.{Reconciler}

abbrev Store : Type 0
Store = Text → Text → Option Secret

abbrev put : Text → Secret → Store → Store
put ns' v s ns name = if ns == ns' && name == v.name then some v else s ns name

abbrev read : Text → Option Secret → Result Secret
read name none = err (kube_error not_found (text "not found"))
read name (some v) = ok (record v { name = name })

abbrev create_in : Text → Secret → Option Secret → Step Store (Unit {0})
create_in ns v none s = (ok tt, put ns v s)
create_in ns v (some _) s = (err (kube_error other_reason (text "already exists")), s)

abbrev update_in : Text → Secret → Option Secret → Step Store (Unit {0})
update_in ns v none s = (err (kube_error not_found (text "not found")), s)
update_in ns v (some _) s = (ok tt, put ns v s)

abbrev pub memory_kube : Kube
memory_kube = record {
  State = Store;
  get = λ ns name s. (read name (s ns name), s);
  create = λ ns v s. create_in ns v (s ns v.name) s;
  update = λ ns v s. update_in ns v (s ns v.name) s;
}

read-put :
    (ns name ns' : Text) (v : Secret) (s : Store)
    → read name (put ns' v s ns name)
      ≡ (if ns == ns' && name == v.name then ok v else read name (s ns name))
read-put ns name ns' v s = ground arith

name-read : (name : Text) (o : Option Secret) (v : Secret) → read name o ≡ ok v → v.name ≡ name
name-read name none v e = cc
name-read name (some w) v e = ground arith

create_in-err :
    (ns : Text) (v : Secret) (o : Option Secret) (s : Store) (e : GoError)
    → (create_in ns v o s).0 ≡ err e
    → (create_in ns v o s).1 ≡ s
create_in-err ns v none s e h = cc
create_in-err ns v (some w) s e h = refl

update_in-err :
    (ns : Text) (v : Secret) (o : Option Secret) (s : Store) (e : GoError)
    → (update_in ns v o s).0 ≡ err e
    → (update_in ns v o s).1 ≡ s
update_in-err ns v none s e h = refl
update_in-err ns v (some w) s e h = cc

create_in-ok :
    (ns : Text) (v : Secret) (o : Option Secret) (s : Store)
    → (create_in ns v o s).0 ≡ ok tt
    → (create_in ns v o s).1 ≡ put ns v s
create_in-ok ns v none s h = refl
create_in-ok ns v (some w) s h = cc

update_in-ok :
    (ns : Text) (v : Secret) (o : Option Secret) (s : Store)
    → (update_in ns v o s).0 ≡ ok tt
    → (update_in ns v o s).1 ≡ put ns v s
update_in-ok ns v none s h = cc
update_in-ok ns v (some w) s h = refl

pub memory_kube-IsLawful : IsLawful memory_kube
memory_kube-IsLawful = record {
  name-get = λ ns name v s e. name-read name (s ns name) v e;
  get-get = λ ns name ns' name' s. refl;
  get-create_refused = λ ns name ns' v s e h.
      ap (λ t. read name (t ns name)) (create_in-err ns' v (s ns' v.name) s e h);
  get-update_refused = λ ns name ns' v s e h.
      ap (λ t. read name (t ns name)) (update_in-err ns' v (s ns' v.name) s e h);
  get-create = λ ns name ns' v s h.
      ap (λ t. read name (t ns name)) (create_in-ok ns' v (s ns' v.name) s h)
      ∙ read-put ns name ns' v s;
  get-update = λ ns name ns' v s h.
      ap (λ t. read name (t ns name)) (update_in-ok ns' v (s ns' v.name) s h)
      ∙ read-put ns name ns' v s;
}

-- Each text behind its length.
abbrev encode : Dict Text Text → Text
encode [] = []
encode ((k, v) ∷ d) = length k ∷ (k ++ (length v ∷ (v ++ encode d)))

abbrev decode : ℕ → Text → Dict Text Text
decode zero s = []
decode (suc fuel) [] = []
decode (suc fuel) (n ∷ s) = elim (drop n s) [
  | [] ↦ []
  | m ∷ t ↦ (take n s, take m t) ∷ decode fuel (drop m t)
]

-- Every URL is an https URL, with the host that stands behind the scheme.
abbrev pub plain_urls : UrlLibrary
plain_urls = record {
  parse = λ raw. ok (record { scheme = text "https"; host = drop 8 raw });
  quote = λ s. s;
  simple_fold = λ r q. false;
}

abbrev pub plain_library : Library
plain_library = record {
  urls = plain_urls;
  parse_duration = λ s. some (pos 60_000_000_000);
  marshal_ids = λ ids. some (encode ids);
  unmarshal_ids = λ s. some (decode (length s) s);
}

abbrev pub served : Bundle
served = (text "API_KEY", text "k1") ∷ (text "TOKEN", text "t1") ∷ []

-- One dynamic secret, and its lease.
abbrev pub platform : Fetcher
platform = record {
  State = ℕ;
  fetch = λ creds project environment s. (ok served, s);
  is_dynamic = true;
  sync_dynamic = λ creds project environment known s.
      (ok ((text "DB_USERNAME", text "u1") ∷ [], (text "DB", text "lease1") ∷ []), s);
  revoke_leases = λ creds ids s. (err (plain (text "down")), s);
}

abbrev pub settings : Reconciler
settings = record {
  cluster = record {
    client_id = text "kmi_1";
    client_secret = text "ksm_1";
    base_url = [];
    namespaces = text "team" ∷ [];
  };
  api_url = record { allow_insecure = false; allowed_hosts = [] };
}

abbrev pub spec : KrypticSecretSpec
spec = record {
  project_id = text "proj_1";
  environment = text "production";
  secret_name = text "backend-env";
  refresh_interval = text "1m";
  keys = text "API_KEY" ∷ [];
  auth = none;
  template = record { type_name = []; labels = []; annotations = [] };
}

abbrev pub resource : KrypticSecret
resource = record {
  name = text "backend";
  namespace = text "team";
  uid = text "u-1";
  generation = 1;
  deletion_timestamp = none;
  finalizers = [];
  spec = spec;
  status = record {
    conditions = [];
    last_sync_time = none;
    synced_key_count = 0;
    observed_generation = 0;
  };
}

-- A Secret of that name that nobody owns.
abbrev pub foreign : Secret
foreign = record {
  name = text "backend-env";
  namespace = text "team";
  labels = [];
  annotations = (text "kryptic.dev/dynamic-lease-ids", text "x") ∷ [];
  owner_references = [];
  type_name = text "Opaque";
  contents = (text "clientId", text "id") ∷ (text "clientSecret", text "s") ∷ [];
}

abbrev pub empty_world : World memory_kube platform
empty_world = record { kube = λ ns name. none; platform = 0 }

-- The produced Secret with one lease.
abbrev pub leased : Secret
leased = record foreign {
  annotations =
      (text "kryptic.dev/dynamic-lease-ids", encode ((text "DB", text "lease1") ∷ [])) ∷ [];
}

abbrev pub leased_world : World memory_kube platform
leased_world = record { kube = λ ns name. some leased; platform = 0 }
