-- ===== src/Errors.antt =====
-- Go's error values as the operator uses them, and fallible steps over a world that they change.
-- krypticapi/client.go (APIError), krypticapi/leases.go (asAPIError), and `fmt.Errorf` with `%w`.
use kryptic_k8s_operator.Base.{ℕ, Bool, ◌||◌, Option, none, some, ◌++◌, Text, text, ◌==◌, nat_eq}
use kryptic_k8s_operator.Base.{if◌then◌else◌, ◌≡◌, refl, ◌⊎◌, inl, inr}
use kryptic_k8s_operator.Strings.{decimal}

-- What `apierrors.IsNotFound` and `apierrors.IsConflict` tell apart.
pub data KubeReason : Type 0 where
  not_found conflict other_reason : KubeReason

pub data GoError : Type 0 where
  api_error : ℕ → GoError
  kube_error : KubeReason → Text → GoError
  plain : Text → GoError
  wrap : Text → GoError → GoError

pub data Result {ℓ} (A : Type ℓ) : Type ℓ where
  ok : A → Result A
  err : GoError → Result A

-- A step over the world `W` that may fail. The world stays changed when it fails.
abbrev pub Step {ℓ κ} : Type ℓ → Type κ → Type (ℓ ⊔ κ)
Step W A = W → Result A × W

infixl 5 ◌>>=◌ ◌>>◌
abbrev pub ◌>>=◌ {ℓ κ μ} :
    {W : Type ℓ} {A : Type κ} {B : Type μ} → Step W A → (A → Step W B) → Step W B
◌>>=◌ m f w = let (r, w') = m w in elim r [ ok a ↦ f a w' | err e ↦ (err e, w') ]

abbrev pub ◌>>◌ {ℓ κ} : {W : Type ℓ} {B : Type κ} → Step W (Unit {0}) → Step W B → Step W B
m >> k = m >>= λ _. k

abbrev pub return {ℓ κ} : {W : Type ℓ} {A : Type κ} → A → Step W A
return a w = (ok a, w)

abbrev pub fail {ℓ κ} : {W : Type ℓ} {A : Type κ} → GoError → Step W A
fail e w = (err e, w)

pub Result-cases {ℓ} :
    {A : Type ℓ} (r : Result A) → ((e : GoError) × (r ≡ err e)) ⊎ ((a : A) × (r ≡ ok a))
Result-cases (ok a) = inr (a, refl)
Result-cases (err e) = inl (e, refl)

-- `APIError.Error`
unfoldable pub api_error_text : ℕ → Text
api_error_text status =
    if status == 401 || status == 403
    then text "kryptic api: authentication failed (HTTP " ++ (decimal status ++ text ")")
    else text "kryptic api: request failed (HTTP " ++ (decimal status ++ text ")")

-- `APIError.Permanent`
unfoldable pub permanent : ℕ → Bool
permanent status = status == 401 || status == 403 || status == 404

-- `err.Error()`
unfoldable pub error_text : GoError → Text
unfolding api_error_text
error_text (api_error status) = api_error_text status
error_text (kube_error reason message) = message
error_text (plain message) = message
error_text (wrap prefix e) = prefix ++ error_text e

-- `errors.As(err, &apiError)`: looks through the wrapping.
unfoldable pub as_api : GoError → Option ℕ
as_api (api_error status) = some status
as_api (kube_error _ _) = none
as_api (plain _) = none
as_api (wrap _ e) = as_api e

-- `asAPIError`: a type assertion, which does not.
unfoldable pub as_api_direct : GoError → Option ℕ
as_api_direct (api_error status) = some status
as_api_direct _ = none
