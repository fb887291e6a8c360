-- ===== src/Examples/Client.antt =====
-- The theorems on the API client at concrete inputs.
use kryptic_k8s_operator.Base.Dict
use kryptic_k8s_operator.Base.Dict.{Dict}
use kryptic_k8s_operator.Base.{
  ◌==◌, if◌then◌else◌, ℕ_discrete, ◌+◌, ◌<◌, ◌≡◌, refl, ◌⊎◌, ◌↔◌, some, [], ◌∷◌, ◌++◌, Text, text,
  text_eq, nat_eq, arith,
}
use kryptic_k8s_operator.Base.Int.{pos}
use kryptic_k8s_operator.Dynsecret.Provider.{integer}
use kryptic_k8s_operator.Errors.{Result, ok}
use kryptic_k8s_operator.Krypticapi.Decrypt.{derive_fresh, cache_key, open_entries}
use kryptic_k8s_operator.Krypticapi.Decrypt.Chain.{Opens, open_entries_iff}
use kryptic_k8s_operator.Krypticapi.Client.{
  Http, Client, call, CachedToken, derive_unwrap_key, token, fresh_token,
}
use kryptic_k8s_operator.Krypticapi.Client.Caches.{
  InUse, Used, CacheIsSound, Stale, Asked, derive_unwrap_key-derive_fresh, token_cases,
  derive_unwrap_key_version,
}
use kryptic_k8s_operator.Krypticapi.Client.Unauthorized.{request}
use kryptic_k8s_operator.Examples.Platform.{cached, crypto, http, creds, keys, client, entries}

open_entries_iff_example :
    (open_entries crypto (λ s. s) (text "org") entries [] ≡ ok ((text "API_KEY", text "k1") ∷ []))
    ↔ ((pairs : Dict Text Text) × Opens crypto (text "org") entries pairs
        × (((text "API_KEY", text "k1") ∷ []) ≡ Dict.put_all [] pairs))
open_entries_iff_example =
    open_entries_iff crypto (text "org") (λ s. s) entries ((text "API_KEY", text "k1") ∷ [])

-- The digest keeps its input, and the only version is 1.
abbrev in_use : InUse crypto
in_use = record {
  hashed = λ s. Unit;
  no_collision = λ s t used used' same. same;
  version_of = λ salt. pos 1;
}

creds-Used : Used crypto in_use creds keys
unfolding text ℕ_discrete
creds-Used = (tt, refl, refl)

client-CacheIsSound : CacheIsSound crypto in_use client
client-CacheIsSound c k key used found =
    ground (arith, Dict.lookup-nil {V = Text} (cache_key crypto c k))

derive_unwrap_key-derive_fresh_example :
    ((derive_unwrap_key crypto creds keys client).0 ≡ derive_fresh crypto creds keys)
    × CacheIsSound crypto in_use (derive_unwrap_key crypto creds keys client).1
derive_unwrap_key-derive_fresh_example =
    derive_unwrap_key-derive_fresh crypto in_use creds keys client creds-Used client-CacheIsSound

abbrev unwrap_key : Text
unwrap_key = text "ksm_1" ++ (text ":" ++ (text "salt" ++ integer (pos 1)))

first_derivation : (derive_unwrap_key crypto creds keys client).0 ≡ ok unwrap_key
unfolding derive_unwrap_key Dict.lookup derive_fresh text
first_derivation = refl

token_answers : (token crypto creds client).0 ≡ ok (text "tok")
unfolding token fresh_token Dict.lookup text_eq text
token_answers = refl

token_cases_example :
    ((good : CachedToken) × (Dict.lookup creds.client_id client.tokens ≡ some good)
      × (good.value ≡ text "tok")
      × (http.now client.http + 60_000_000_000 < good.expires_at)
      × ((token crypto creds client).1 ≡ client))
    ⊎ (Stale crypto creds client
        × Asked crypto creds (text "tok") client (text "kmi_2") (token crypto creds client).1)
token_cases_example = token_cases crypto creds client (text "tok") (text "kmi_2") token_answers

derive_unwrap_key_version_example :
    (derive_unwrap_key crypto creds
      (record keys { kdf_parameters_version = pos 2 })
      (derive_unwrap_key crypto creds keys client).1).0
    ≡ ok unwrap_key
derive_unwrap_key_version_example =
    derive_unwrap_key_version crypto creds keys (pos 2) client unwrap_key first_derivation

-- A platform that takes no token any more, and gives new ones.
abbrev rotated : Http
rotated = record http {
  send = λ request s.
      (ok (record { status = if request.authorization == [] then 200 else 401; body = [] }), s);
}

abbrev before : Client rotated
before = record { tokens = (text "kmi_1", cached) ∷ []; unwrap_key = []; http = 0 }

abbrev read_text : Text → Result Text
read_text s = ok s

abbrev after_call : Client rotated
after_call = (call creds (text "tok") (text "GET") (text "/api/keys") [] read_text before).1
