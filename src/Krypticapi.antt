-- ===== src/Krypticapi.antt =====
-- internal/krypticapi/client.go: the credentials, the bundle, and the two interfaces that the
-- reconciler asks for secrets by.
pub mod Decrypt
pub mod Client
pub mod Leases
use kryptic_k8s_operator.Base.Dict.{Dict}
use kryptic_k8s_operator.Base.{Bool, List, Text, text}
use kryptic_k8s_operator.Errors.{Step}

-- `DefaultBaseURL`
abbrev pub default_base_url : Text
default_base_url = text "https://pipelines.kryptic.dev"

pub record Credentials : Type 0 where
  pub base_url : Text
  pub client_id : Text
  pub client_secret : Text

abbrev pub Bundle : Type 0
Bundle = Dict Text Text

-- `Fetcher`, and `DynamicFetcher` where `is_dynamic` says that the value has those methods too.
-- The state is the client's caches and the platform behind it.
pub record Fetcher : Type 1 where
  pub State : Type 0
  pub fetch : Credentials → Text → Text → Step State Bundle
  pub is_dynamic : Bool
  pub sync_dynamic :
      Credentials → Text → Text → Dict Text Text → Step State (Bundle × Dict Text Text)
  pub revoke_leases : Credentials → List Text → Step State (Unit {0})
