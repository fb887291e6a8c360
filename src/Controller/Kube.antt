-- ===== src/Controller/Kube.antt =====
-- The calls of `kubernetes.Interface` on Secrets, what is assumed of the API server behind them,
-- and the world in which the reconciler runs. No other writer acts within one call of the
-- reconciler where `IsLawful` is assumed.
use kryptic_k8s_operator.Base.Int.{ℤ}
use kryptic_k8s_operator.Base.Dict.{Dict}
use kryptic_k8s_operator.Base.{◌&&◌, ◌≡◌, Option, Text, ◌==◌, text_eq, if◌then◌else◌}
use kryptic_k8s_operator.Errors.{Step, ok, err, GoError}
use kryptic_k8s_operator.Krypticapi.{Fetcher}
use kryptic_k8s_operator.Controller.ApiUrl.{UrlLibrary}
use kryptic_k8s_operator.Controller.Types.{Secret}

-- `Secrets(namespace).Get(name)`, `.Create(secret)` and `.Update(secret)`.
pub record Kube : Type 1 where
  pub State : Type 0
  pub get : Text → Text → Step State Secret
  pub create : Text → Secret → Step State (Unit {0})
  pub update : Text → Secret → Step State (Unit {0})

-- What Kubernetes documents: a read changes nothing and returns the object of that name, a write
-- that is refused changes nothing, and one that is accepted is read back, while every other Secret
-- stays.
pub record IsLawful (K : Kube) : Type 0 where
  pub name-get :
      (ns name : Text) (v : Secret) (s : K.State) → (K.get ns name s).0 ≡ ok v → v.name ≡ name
  pub get-get :
      (ns name ns' name' : Text) (s : K.State)
      → (K.get ns name (K.get ns' name' s).1).0 ≡ (K.get ns name s).0
  pub get-create_refused :
      (ns name ns' : Text) (v : Secret) (s : K.State) (e : GoError)
      → (K.create ns' v s).0 ≡ err e
      → (K.get ns name (K.create ns' v s).1).0 ≡ (K.get ns name s).0
  pub get-update_refused :
      (ns name ns' : Text) (v : Secret) (s : K.State) (e : GoError)
      → (K.update ns' v s).0 ≡ err e
      → (K.get ns name (K.update ns' v s).1).0 ≡ (K.get ns name s).0
  pub get-create :
      (ns name ns' : Text) (v : Secret) (s : K.State)
      → (K.create ns' v s).0 ≡ ok tt
      → (K.get ns name (K.create ns' v s).1).0
        ≡ (if ns == ns' && name == v.name then ok v else (K.get ns name s).0)
  pub get-update :
      (ns name ns' : Text) (v : Secret) (s : K.State)
      → (K.update ns' v s).0 ≡ ok tt
      → (K.get ns name (K.update ns' v s).1).0
        ≡ (if ns == ns' && name == v.name then ok v else (K.get ns name s).0)

-- `time.ParseDuration`, and `json` on a map of lease ids.
pub record Library : Type 0 where
  pub urls : UrlLibrary
  pub parse_duration : Text → Option ℤ
  pub marshal_ids : Dict Text Text → Option Text
  pub unmarshal_ids : Text → Option (Dict Text Text)

pub record World (K : Kube) (F : Fetcher) : Type 0 where
  pub kube : K.State
  pub platform : F.State

module _ {K : Kube} {F : Fetcher} where
  -- A call of one of the two, in the world of both.
  abbrev pub on_kube {ℓ} : {A : Type ℓ} → Step K.State A → Step (World K F) A
  on_kube m w = let (r, s) = m w.kube in (r, record w { kube = s })

  abbrev pub on_platform {ℓ} : {A : Type ℓ} → Step F.State A → Step (World K F) A
  on_platform m w = let (r, s) = m w.platform in (r, record w { platform = s })
