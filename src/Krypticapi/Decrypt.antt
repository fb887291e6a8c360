-- ===== src/Krypticapi/Decrypt.antt =====
-- The data of internal/krypticapi/client.go and its local decryption, over the encryption library.
pub mod Chain
use kryptic_k8s_operator.Base.Int.{ℤ}
use kryptic_k8s_operator.Base.Dict
use kryptic_k8s_operator.Base.{List, [], ◌∷◌, ◌++◌, Text, text, text_eq}
use kryptic_k8s_operator.Errors.{plain, wrap, Result, ok, err}
use kryptic_k8s_operator.Krypticapi.{Credentials, Bundle}

-- `machineKeys`
pub record MachineKeys : Type 0 where
  pub public_key : Text
  pub wrapped_private_key : Text
  pub kdf_salt : Text
  pub kdf_parameters_version : ℤ

-- `bundleEntry`
pub record BundleEntry : Type 0 where
  pub key : Text
  pub envelope : Text
  pub definition_id : Text
  pub environment_id : Text

-- `dynamicHint`
pub record DynamicHint : Type 0 where
  pub key : Text
  pub definition_id : Text
  pub environment_id : Text
  pub provider : ℤ

-- `cipherBundle`
pub record CipherBundle : Type 0 where
  pub org_key_id : Text
  pub wrapped_org_key : Text
  pub secrets : List BundleEntry
  pub dynamic_secrets : List DynamicHint

-- The packages `kdf`, `envelope` and `sealedbox`, SHA-256 and base64.
pub record Crypto : Type 0 where
  pub machine_auth_secret : Text → Result Text
  pub for_version : ℤ → Text → Text → Result Text
  pub open_envelope : Text → Text → Text → Result Text
  pub seal_envelope : Text → Text → Text → Text → Result Text
  pub secret_context : Text → Text → Text
  pub parse_box : Text → Result Text
  pub open_box : Text → Text → Text → Result Text
  pub sha256 : Text → Text
  pub decode_base64 : Text → Result Text

module _ (X : Crypto) where
  -- `deriveUnwrapKey` where the key is not cached.
  unfoldable pub derive_fresh : Credentials → MachineKeys → Result Text
  derive_fresh creds keys = elim (X.decode_base64 keys.kdf_salt) [
    | err e ↦ err (wrap (text "invalid KDF salt encoding: ") e)
    | ok salt ↦ X.for_version keys.kdf_parameters_version creds.client_secret salt
  ]

  unfoldable pub cache_key : Credentials → MachineKeys → Text
  cache_key creds keys = X.sha256 (creds.client_secret ++ (text ":" ++ keys.kdf_salt))

  -- `openOrgKey` once the unwrap key is there.
  unfoldable pub open_with : Text → MachineKeys → Text → Result Text
  open_with unwrap keys wrapped = elim (X.open_envelope unwrap keys.wrapped_private_key []) [
    | err _ ↦ err (plain (text "could not unwrap the machine private key - wrong client secret?"))
    | ok private ↦ elim (X.decode_base64 keys.public_key) [
      | err e ↦ err (wrap (text "invalid machine public key encoding: ") e)
      | ok public ↦ elim (X.parse_box wrapped) [
        | err e ↦ err (wrap (text "invalid wrapped org key: ") e)
        | ok box ↦ elim (X.open_box public private box) [
          | err _ ↦ err (
              plain (
                text
                  "could not unwrap the org key - the machine grant may be stale, rotate the identity"))
          | ok org_key ↦ ok org_key
        ]
      ]
    ]
  ]

  -- The loop of `decrypt`; `quote` is `%q`.
  unfoldable pub open_entries : (Text → Text) → Text → List BundleEntry → Bundle → Result Bundle
  open_entries quote org_key [] pairs = ok pairs
  open_entries quote org_key (entry ∷ entries) pairs =
      elim (X.open_envelope org_key entry.envelope
        (X.secret_context entry.definition_id entry.environment_id)) [
          | err e ↦ err (wrap (text "decrypt " ++ (quote entry.key ++ text ": ")) e)
          | ok plaintext ↦
              open_entries quote org_key entries (Dict.insert entry.key plaintext pairs)
        ]
