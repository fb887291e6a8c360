-- ===== src/Krypticapi/Client.antt =====
-- internal/krypticapi/client.go: tokens, authenticated calls, and the local decryption chain, over
-- HTTP, JSON and the encryption library. The maps that the mutex guards are the client's state.
pub mod Caches
pub mod Unauthorized
use kryptic_k8s_operator.Base.Int.{ℤ, pos, negsuc}
use kryptic_k8s_operator.Base.Dict
use kryptic_k8s_operator.Base.Dict.{Dict}
use kryptic_k8s_operator.Base.{
  ℕ, suc, ◌+◌, ◌-◌, ◌*◌, ◌%◌, Bool, true, false, Option, none, some, List, [], ◌∷◌, ◌++◌, Text,
  text, ◌==◌, text_eq, nat_eq, if◌then◌else◌, ltb,
}
use kryptic_k8s_operator.Strings.{trim_suffix}
use kryptic_k8s_operator.Errors.{
  GoError, api_error, plain, wrap, Step, Result, ok, err, return, fail, ◌>>=◌,
}
use kryptic_k8s_operator.Krypticapi.{Credentials, Bundle}
use kryptic_k8s_operator.Krypticapi.Decrypt.{
  Crypto, MachineKeys, CipherBundle, derive_fresh, cache_key, open_with, open_entries,
}

-- The answer of POST /api/token.
pub record TokenAnswer : Type 0 where
  pub access_token : Text
  pub expires_in_seconds : ℤ

pub record Request : Type 0 where
  pub method : Text
  pub url : Text
  pub authorization : Text
  pub body : Text

pub record Response : Type 0 where
  pub status : ℕ
  pub body : Text

-- `http.Client.Do` on a request that `http.NewRequestWithContext` makes; the clock, in nanoseconds;
-- `url.QueryEscape`; `%q`; and `json` at the types of the client.
pub record Http : Type 1 where
  pub State : Type 0
  pub send : Request → Step State Response
  pub now : State → ℕ
  pub query_escape : Text → Text
  pub quote : Text → Text
  pub marshal_login : Text → Text → Text
  pub decode_token : Text → Result TokenAnswer
  pub decode_keys : Text → Result MachineKeys
  pub decode_bundle : Text → Result CipherBundle

-- `cachedToken`
pub record CachedToken : Type 0 where
  pub value : Text
  pub expires_at : ℕ

-- `Client`, with the world behind its HTTP client.
pub record Client (H : Http) : Type 0 where
  pub tokens : Dict Text CachedToken
  pub unwrap_key : Dict Text Text
  pub http : H.State

abbrev two_64 : ℕ
two_64 = 18_446_744_073_709_551_616

-- The bits of `time.Duration(seconds) * time.Second`, in 64 bits.
unfoldable pub duration_bits : ℤ → ℕ
duration_bits (pos n) = n * 1_000_000_000 % two_64
duration_bits (negsuc n) = (two_64 - suc n * 1_000_000_000 % two_64) % two_64

-- `now.Add`, of the bits of a signed duration. No time is before 0.
unfoldable pub add_seconds : ℕ → ℤ → ℕ
unfolding duration_bits
add_seconds now seconds =
    if ltb (duration_bits seconds) 9_223_372_036_854_775_808
    then now + duration_bits seconds
    else now - (two_64 - duration_bits seconds)

-- The request of `token`.
abbrev pub login_request : Http → Credentials → Text → Request
login_request H creds auth_secret = record {
  method = text "POST";
  url = trim_suffix b'/' creds.base_url ++ text "/api/token";
  authorization = [];
  body = H.marshal_login creds.client_id auth_secret;
}

module _ {H : Http} where
  abbrev pub send_step : Request → Step (Client H) Response
  send_step request c = let (r, s) = H.send request c.http in (r, record c { http = s })

  -- `invalidate`
  unfoldable pub invalidate : Text → Client H → Client H
  invalidate client_id c = record c { tokens = Dict.erase client_id c.tokens }

  -- What `get` and `do` make of an answer: an error that carries the status alone, and a dropped
  -- token after 401; or the decoded body.
  unfoldable pub accept {ℓ} :
      {A : Type ℓ} → Credentials → (Text → Result A) → Response → Step (Client H) A
  accept creds decode response c =
      if response.status == 200
      then (
        elim (decode response.body) [
          | ok a ↦ ok a
          | err e ↦ err (wrap (text "decoding response: ") e)
        ],
        c,
      )
      else (
        err (api_error response.status),
        if response.status == 401 then invalidate creds.client_id c else c,
      )

  -- `get`, and `do` with its payload.
  unfoldable pub call {ℓ} :
      {A : Type ℓ} → Credentials → Text → Text → Text → Text → (Text → Result A) → Step (Client H) A
  unfolding accept
  call creds token method path body decode = do
    response ← send_step (record {
      method = method;
      url = trim_suffix b'/' creds.base_url ++ path;
      authorization = text "Bearer " ++ token;
      body = body;
    })
    accept creds decode response

  -- The cached token of an identity, if it is good for more than a minute.
  unfoldable pub fresh_token : Credentials → Client H → Option Text
  fresh_token creds c = elim (Dict.lookup creds.client_id c.tokens) [
    | none ↦ none
    | some cached ↦
        if ltb (H.now c.http + 60_000_000_000) cached.expires_at then some cached.value else none
  ]

  -- The answer of POST /api/token: the new token is cached.
  unfoldable pub store_token : Credentials → Response → Step (Client H) Text
  unfolding add_seconds
  store_token creds response c =
      if response.status == 200
      then elim (H.decode_token response.body) [
        | err e ↦ (err (wrap (text "decoding token: ") e), c)
        | ok answer ↦ (
          ok answer.access_token,
          record c {
            tokens =
                Dict.insert creds.client_id
                  (record {
                    value = answer.access_token;
                    expires_at = add_seconds (H.now c.http) answer.expires_in_seconds;
                  })
                  c.tokens;
          },
        )
      ]
      else (err (api_error response.status), c)

  module _ (X : Crypto) where
    request_token : Credentials → Step (Client H) Text
    unfolding store_token
    request_token creds c = elim (X.machine_auth_secret creds.client_secret) [
      | err e ↦ (err e, c)
      | ok auth_secret ↦
          (do response ← send_step (login_request H creds auth_secret); store_token creds response)
            c
    ]

    -- `token`
    unfoldable pub token : Credentials → Step (Client H) Text
    unfolding request_token
    token creds c = elim (fresh_token creds c) [
      | some value ↦ (ok value, c)
      | none ↦ request_token creds c
    ]

    -- `deriveUnwrapKey`
    unfoldable pub derive_unwrap_key : Credentials → MachineKeys → Step (Client H) Text
    derive_unwrap_key creds keys c = elim (Dict.lookup (cache_key X creds keys) c.unwrap_key) [
      | some cached ↦ (ok cached, c)
      | none ↦ elim (derive_fresh X creds keys) [
        | err e ↦ (err e, c)
        | ok derived ↦ (
          ok derived,
          record c { unwrap_key = Dict.insert (cache_key X creds keys) derived c.unwrap_key },
        )
      ]
    ]

    -- `openOrgKey`, and `orgKey`
    unfoldable pub open_org_key : Credentials → MachineKeys → Text → Step (Client H) Text
    unfolding derive_unwrap_key
    open_org_key creds keys wrapped c =
        let (r, c') = derive_unwrap_key creds keys c in
        (elim r [ err e ↦ err e | ok unwrap ↦ open_with X unwrap keys wrapped ], c')

    -- `decrypt`
    unfoldable pub decrypt : Credentials → MachineKeys → CipherBundle → Step (Client H) Bundle
    unfolding open_org_key
    decrypt creds keys bundle c =
        let (r, c') = open_org_key creds keys bundle.wrapped_org_key c in
        (
          elim r [ err e ↦ err e | ok org_key ↦ open_entries X H.quote org_key bundle.secrets [] ],
          c',
        )

    -- `machineKeys`, and the first call of `Fetch`
    unfoldable pub machine_keys : Credentials → Text → Step (Client H) MachineKeys
    unfolding call
    machine_keys creds token c =
        let (r, c') = call creds token (text "GET") (text "/api/keys/me") [] H.decode_keys c in
        (elim r [ ok keys ↦ ok keys | err e ↦ err (wrap (text "fetching machine keys: ") e) ], c')

    -- `Fetch`. `url.Values.Encode` sorts the two keys.
    unfoldable pub fetch : Credentials → Text → Text → Step (Client H) Bundle
    unfolding token machine_keys call decrypt
    fetch creds project_id environment = do
      value ← token creds
      keys ← machine_keys creds value
      bundle ←
          call creds value (text "GET")
            (text "/api/secrets/bundle?environment="
              ++ (H.query_escape environment
                  ++ (text "&projectPublicId=" ++ H.query_escape project_id)))
            [] H.decode_bundle
      decrypt creds keys bundle
