-- ===== src/Krypticapi/Leases.antt =====
-- internal/krypticapi/leases.go, over the client of client.go and `Apply` of internal/dynsecret.
pub mod Work
pub mod Sync
pub mod Minting
pub mod Kept
pub mod Expanded
use kryptic_k8s_operator.Base.Dict
use kryptic_k8s_operator.Base.Dict.{Dict}
use kryptic_k8s_operator.Base.{
  ℕ, Bool, true, false, ◌&&◌, Option, none, some, List, [], ◌∷◌, ◌++◌, Text, text, ◌==◌, text_eq,
  nat_eq, if◌then◌else◌, is_empty,
}
use kryptic_k8s_operator.Strings.{trim_space}
use kryptic_k8s_operator.Errors.{
  GoError, plain, wrap, Step, Result, ok, err, return, ◌>>=◌, as_api_direct,
}
use kryptic_k8s_operator.Krypticapi.{Credentials, Bundle, Fetcher}
use kryptic_k8s_operator.Krypticapi.Decrypt.{Crypto, MachineKeys, CipherBundle, DynamicHint}
use kryptic_k8s_operator.Krypticapi.Client.{
  Http, Client, call, token, machine_keys, open_org_key, fetch,
}
use kryptic_k8s_operator.Dynsecret.Provider.{Targets, WorkItem, CompleteLease, Minted}
use kryptic_k8s_operator.Dynsecret.Apply.{apply_work, apply_with}

-- `workBatch`
pub record WorkBatch : Type 0 where
  pub org_key_id : Text
  pub wrapped_org_key : Text
  pub items : List WorkItem

-- `leaseDTO`
pub record LeaseDto : Type 0 where
  pub id : Text
  pub status : ℕ
  pub has_minted_envelope : Bool

-- `secretEnvelope`
pub record SecretEnvelope : Type 0 where
  pub key : Text
  pub definition_id : Text
  pub environment_id : Text
  pub envelope : Text

-- `json` at these types.
pub record LeaseJson : Type 0 where
  pub decode_batch : Text → Result WorkBatch
  pub decode_lease : Text → Result LeaseDto
  pub decode_envelope : Text → Result SecretEnvelope
  pub decode_minted : Text → Result Minted
  pub marshal_complete : CompleteLease → Text

-- The client, and what stands behind the providers.
pub record Session (H : Http) (T : Targets) : Type 0 where
  pub client : Client H
  pub targets : T.State

-- `expandMinted`
unfoldable pub expand_minted : Text → Minted → Dict Text Text
expand_minted key minted =
    (key ++ text "_USERNAME", minted.username)
    ∷ (key ++ text "_PASSWORD", minted.password)
    ∷ ((if minted.session_token == []
          then []
          else (key ++ text "_SESSION_TOKEN", minted.session_token) ∷ [])
        ++ ((if minted.access_key_id == []
              then []
              else (key ++ text "_ACCESS_KEY_ID", minted.access_key_id) ∷ [])
            ++ (if trim_space minted.url == [] then [] else (key, minted.url) ∷ [])))

-- `existing[hint.Key]`
abbrev pub id_at : Text → Dict Text Text → Text
id_at key ids = elim (Dict.lookup key ids) [ none ↦ [] | some id ↦ id ]

-- The loop of `SyncDynamic` over the known leases: those that are not kept.
unfoldable pub stale_ids : Dict Text Text → Dict Text Text → List Text
stale_ids leases [] = []
stale_ids leases ((key, id) ∷ known) =
    let rest = stale_ids leases known in if id_at key leases == id then rest else id ∷ rest

-- `asAPIError(err, &apiError) && apiError.Status == http.StatusNotFound`
unfoldable pub is_missing : GoError → Bool
is_missing e = elim (as_api_direct e) [ none ↦ false | some status ↦ status == 404 ]

module _ {H : Http} {T : Targets} where
  abbrev pub on_client {ℓ} : {A : Type ℓ} → Step (Client H) A → Step (Session H T) A
  on_client m w = let (r, c) = m w.client in (r, record w { client = c })

  abbrev pub on_targets {ℓ} : {A : Type ℓ} → Step T.State A → Step (Session H T) A
  on_targets m w = let (r, s) = m w.targets in (r, record w { targets = s })

-- A path of a lease.
abbrev pub lease_path : Text → Text → Text
lease_path lease_id action = text "/api/dynamic-secrets/leases/" ++ (lease_id ++ action)

-- `out == nil`
abbrev pub ignore_body : Text → Result (Unit {0})
ignore_body body = ok tt

-- `readMinted` once the envelope has arrived.
unfoldable pub open_minted : Crypto → LeaseJson → Text → SecretEnvelope → Option Bundle
unfolding expand_minted
open_minted X J org_key env =
    elim (X.open_envelope org_key env.envelope
      (X.secret_context env.definition_id env.environment_id)) [
        | err _ ↦ none
        | ok plaintext ↦ elim (J.decode_minted plaintext) [
          | err _ ↦ none
          | ok minted ↦ some (Dict.put_all [] (expand_minted env.key minted))
        ]
      ]

module _ {H : Http} (X : Crypto) where
  -- `bundleAndKeys`
  unfoldable pub bundle_and_keys :
      Credentials → Text → Text → Text → Step (Client H) (MachineKeys × CipherBundle)
  bundle_and_keys creds token project_id environment = do
    keys ← machine_keys X creds token
    bundle ←
        call creds token (text "GET")
          (text "/api/secrets/bundle?projectPublicId="
            ++ (H.query_escape project_id ++ (text "&environment=" ++ H.query_escape environment)))
          [] H.decode_bundle
    return (keys, bundle)
