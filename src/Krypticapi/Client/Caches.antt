-- ===== src/Krypticapi/Client/Caches.antt =====
-- What the caches of the client may answer, and what a failed call leaves.
use kryptic_k8s_operator.Base.Int.{ℤ}
use kryptic_k8s_operator.Base.Dict
use kryptic_k8s_operator.Base.{
  ℕ, ◌+◌, ◌<◌, ◌≤◌, ◌≡◌, text, [], ◌∷◌, ◌++◌, refl, sym, ◌⊎◌, inl, inr, none, some, Option-cases,
  Text, ◌==◌, text_eq, nat_eq, arith, if◌then◌else◌,
}
use kryptic_k8s_operator.Strings.Count.{count}
use kryptic_k8s_operator.Errors.{Result-cases, ok}
use kryptic_k8s_operator.Krypticapi.{Credentials}
use kryptic_k8s_operator.Krypticapi.Decrypt.{Crypto, MachineKeys, derive_fresh, cache_key}
use kryptic_k8s_operator.Krypticapi.Client.{
  Http, Client, Response, TokenAnswer, CachedToken, login_request, add_seconds, fresh_token,
  store_token, token, request_token, derive_unwrap_key,
}

-- What the hash of a cache key is taken of.
abbrev pub digest_input : Credentials → MachineKeys → Text
digest_input creds keys = creds.client_secret ++ (text ":" ++ keys.kdf_salt)

-- Two texts without the byte in front are cut at it alike.
cut_at :
    (b : ℕ) (s s' t t' : Text)
    → count b s ≡ 0
    → count b s' ≡ 0
    → s ++ b ∷ t ≡ s' ++ b ∷ t'
    → (s ≡ s') × (t ≡ t')
cut_at b [] [] t t' p q e = (refl, ground arith)
cut_at b [] (a ∷ s') t t' p q e = ground arith
cut_at b (a ∷ s) [] t t' p q e = ground arith
cut_at b (a ∷ s) (a' ∷ s') t t' p q e =
    let (same, rest) = cut_at b s s' t t' (ground arith) (ground arith) (ground arith) in
    (ground arith, rest)

-- What is in use: the texts that are hashed, none of whose hashes collide, and the version of the
-- parameters that goes with a salt.
pub record InUse (X : Crypto) : Type 1 where
  pub hashed : Text → Type 0
  pub no_collision : (s t : Text) → hashed s → hashed t → X.sha256 s ≡ X.sha256 t → s ≡ t
  pub version_of : Text → ℤ

module _ (X : Crypto) where
  -- Keys of a machine in use: its secret has no colon, and its version is that of its salt.
  abbrev pub Used : InUse X → Credentials → MachineKeys → Type 0
  Used use_of creds keys =
      use_of.hashed (digest_input creds keys)
      × (count b':' creds.client_secret ≡ 0)
      × (keys.kdf_parameters_version ≡ use_of.version_of keys.kdf_salt)

  derive_fresh-cache_key :
      (use_of : InUse X) (creds creds' : Credentials) (keys keys' : MachineKeys)
      → Used use_of creds keys
      → Used use_of creds' keys'
      → cache_key X creds keys ≡ cache_key X creds' keys'
      → derive_fresh X creds keys ≡ derive_fresh X creds' keys'
  unfolding cache_key derive_fresh text
  derive_fresh-cache_key use_of creds creds' keys keys' (hashed, plain, version)
        (hashed', plain', version') same =
      let input =
        use_of.no_collision (digest_input creds keys) (digest_input creds' keys') hashed hashed'
          same in
      let (secrets, salts) =
        cut_at b':' creds.client_secret creds'.client_secret keys.kdf_salt keys'.kdf_salt plain
          plain' input in
      cc

module _ {H : Http} (X : Crypto) where
  -- Every cached key of those in use is the one that would be derived.
  abbrev pub CacheIsSound : InUse X → Client H → Type 0
  CacheIsSound use_of c =
      (creds : Credentials) (keys : MachineKeys) (key : Text)
      → Used X use_of creds keys
      → Dict.lookup (cache_key X creds keys) c.unwrap_key ≡ some key
      → derive_fresh X creds keys ≡ ok key

  -- The cache is invisible to keys in use: where no two of the hashed texts collide, no secret has a
  -- colon, and every salt goes with one version, the key from a sound cache is the one that would be
  -- derived, errors included, and the cache stays sound.
  pub derive_unwrap_key-derive_fresh :
      (use_of : InUse X) (creds : Credentials) (keys : MachineKeys) (c : Client H)
      → Used X use_of creds keys
      → CacheIsSound use_of c
      → ((derive_unwrap_key X creds keys c).0 ≡ derive_fresh X creds keys)
        × CacheIsSound use_of (derive_unwrap_key X creds keys c).1
  unfolding derive_unwrap_key
  derive_unwrap_key-derive_fresh use_of creds keys c used sound =
      elim (Option-cases (Dict.lookup (cache_key X creds keys) c.unwrap_key)) [
        | inr (key, cached) ↦
            rw (cached, derive_unwrap_key) (sym (sound creds keys key used cached), sound)
        | inl absent ↦ elim (Result-cases (derive_fresh X creds keys)) [
          | inl (e, broken) ↦ rw (absent, broken, derive_unwrap_key) (refl, sound)
          | inr (key, derived) ↦
              rw (absent, derived, derive_unwrap_key)
                (
                  refl,
                  λ creds' keys' key' used' at. ground (
                    arith,
                    derive_fresh-cache_key X use_of creds creds' keys keys' used used',
                    sound creds' keys' key' used',
                    Dict.lookup-insert (cache_key X creds' keys') (cache_key X creds keys) key
                        c.unwrap_key,
                  ),
                )
        ]
      ]

  -- The cache does not see the version: once a key is derived for a salt, the same key is answered
  -- for every other version of the parameters with that salt.
  pub derive_unwrap_key_version :
      (creds : Credentials) (keys : MachineKeys) (version : ℤ) (c : Client H) (key : Text)
      → (derive_unwrap_key X creds keys c).0 ≡ ok key
      → (derive_unwrap_key X creds
          (record keys { kdf_parameters_version = version })
          (derive_unwrap_key X creds keys c).1).0
        ≡ ok key
  unfolding derive_unwrap_key cache_key
  derive_unwrap_key_version creds keys version c key e =
      elim (Option-cases (Dict.lookup (cache_key X creds keys) c.unwrap_key)) [
        | inr (old, cached) ↦ ground arith
        | inl absent ↦ elim (Result-cases (derive_fresh X creds keys)) [
          | inl (e', broken) ↦ ground arith
          | inr (new, derived) ↦ ground (
            arith,
            Dict.lookup-insert (cache_key X creds keys) (cache_key X creds keys) new c.unwrap_key,
          )
        ]
      ]

  fresh_token-some :
      (creds : Credentials) (c : Client H) (value : Text)
      → fresh_token creds c ≡ some value
      → (cached : CachedToken) × (Dict.lookup creds.client_id c.tokens ≡ some cached)
        × (cached.value ≡ value)
        × (H.now c.http + 60_000_000_000 < cached.expires_at)
  unfolding fresh_token
  fresh_token-some creds c value e = elim (Option-cases (Dict.lookup creds.client_id c.tokens)) [
    | inl absent ↦ ground arith
    | inr (cached, found) ↦ (cached, found, ground arith, ground arith)
  ]

  -- No token of that client id is good for more than a minute.
  abbrev pub Stale : Credentials → Client H → Type 0
  Stale creds c = elim (Dict.lookup creds.client_id c.tokens) [
    | none ↦ Unit
    | some cached ↦ cached.expires_at ≤ H.now c.http + 60_000_000_000
  ]

  -- The platform was asked by the derived secret, and has answered 200 with this token; it is cached
  -- until its expiry, and the tokens of other client ids are as before.
  abbrev pub Asked : Credentials → Text → Client H → Text → Client H → Type 0
  Asked creds value c other c' =
      (secret : Text) × (response : Response) × (answer : TokenAnswer) × (X.machine_auth_secret
          creds.client_secret
        ≡ ok secret)
      × ((H.send (login_request H creds secret) c.http).0 ≡ ok response)
      × (response.status ≡ 200)
      × (H.decode_token response.body ≡ ok answer)
      × (value ≡ answer.access_token)
      × (Dict.lookup other c'.tokens ≡ (
          if creds.client_id == other
          then some (record {
            value = value;
            expires_at =
                add_seconds (H.now (H.send (login_request H creds secret) c.http).1)
                  answer.expires_in_seconds;
          })
          else Dict.lookup other c.tokens))

  fresh_token-none :
      (creds : Credentials) (c : Client H) → fresh_token creds c ≡ none → Stale creds c
  unfolding fresh_token
  fresh_token-none creds c e = elim (Option-cases (Dict.lookup creds.client_id c.tokens)) [
    | inl absent ↦ rw (absent, Stale) tt
    | inr (cached, found) ↦ rw (found, Stale) (ground arith)
  ]

  request_token-Asked :
      (creds : Credentials) (c : Client H) (value : Text) (other : Text)
      → (request_token X creds c).0 ≡ ok value
      → Asked creds value c other (request_token X creds c).1
  unfolding request_token store_token
  request_token-Asked creds c value other e =
      elim (Result-cases (X.machine_auth_secret creds.client_secret)) [
        | inl (e', broken) ↦ ground arith
        | inr (secret, derived) ↦
            elim (Result-cases (H.send (login_request H creds secret) c.http).0) [
              | inl (e', broken) ↦ ground arith
              | inr (response, sent) ↦ elim (Result-cases (H.decode_token response.body)) [
                | inl (e', broken) ↦ ground arith
                | inr (answer, decoded) ↦ (
                  secret,
                  response,
                  answer,
                  derived,
                  sent,
                  ground arith,
                  decoded,
                  ground arith,
                  ground (
                    arith,
                    Dict.lookup-insert other creds.client_id
                        (record {
                          value = answer.access_token;
                          expires_at =
                              add_seconds (H.now (H.send (login_request H creds secret) c.http).1)
                                answer.expires_in_seconds;
                        })
                        c.tokens,
                  ),
                )
              ]
            ]
      ]

  -- A token that `token` answers is a cached one of that client id that is good for more than a
  -- minute, and then nothing is sent and nothing changes; or there is no such one, and it is what the
  -- platform answered, which is cached until it expires, with the other client ids' tokens as before.
  pub token_cases :
      (creds : Credentials) (c : Client H) (value other : Text)
      → (token X creds c).0 ≡ ok value
      → ((cached : CachedToken) × (Dict.lookup creds.client_id c.tokens ≡ some cached)
          × (cached.value ≡ value)
          × (H.now c.http + 60_000_000_000 < cached.expires_at)
          × ((token X creds c).1 ≡ c))
        ⊎ (Stale creds c × Asked creds value c other (token X creds c).1)
  unfolding token
  token_cases creds c value other e = elim (Option-cases (fresh_token creds c)) [
    | inr (v, fresh) ↦
        let (cached, found, same, late) = fresh_token-some creds c v fresh in
        inl (cached, found, ground arith, late, rw (fresh, token))
    | inl stale ↦ inr (
      fresh_token-none creds c stale,
      rw (stale, token) (request_token-Asked creds c value other (ground arith)),
    )
  ]
