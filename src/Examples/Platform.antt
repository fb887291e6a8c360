-- ===== src/Examples/Platform.antt =====
-- A client in memory: a digest that keeps its input, envelopes that are their plaintext, and a
-- platform whose every answer is the same.
use kryptic_k8s_operator.Base.Int.{pos}
use kryptic_k8s_operator.Base.{ℕ, false, List, [], ◌∷◌, ◌++◌, Text, text}
use kryptic_k8s_operator.Errors.{ok}
use kryptic_k8s_operator.Krypticapi.{Credentials}
use kryptic_k8s_operator.Krypticapi.Decrypt.{Crypto, MachineKeys, BundleEntry, DynamicHint}
use kryptic_k8s_operator.Krypticapi.Client.{Http, Client, CachedToken}
use kryptic_k8s_operator.Krypticapi.Leases.{LeaseJson, Session}
use kryptic_k8s_operator.Dynsecret.Provider.{integer, Targets, WorkItem, Minted}

-- An envelope is its plaintext.
abbrev pub crypto : Crypto
crypto = record {
  machine_auth_secret = λ s. ok s;
  for_version = λ version s salt. ok (s ++ (text ":" ++ (salt ++ integer version)));
  open_envelope = λ key sealed context. ok sealed;
  seal_envelope = λ key plaintext context nonce. ok plaintext;
  secret_context = λ definition environment. definition ++ environment;
  parse_box = λ s. ok s;
  open_box = λ public private box. ok box;
  sha256 = λ s. s;
  decode_base64 = λ s. ok s;
}

abbrev pub creds : Credentials
creds = record {
  base_url = text "https://pipelines.kryptic.dev";
  client_id = text "kmi_1";
  client_secret = text "ksm_1";
}

abbrev pub keys : MachineKeys
keys = record {
  public_key = text "pk";
  wrapped_private_key = text "sk";
  kdf_salt = text "salt";
  kdf_parameters_version = pos 1;
}

abbrev pub entries : List BundleEntry
entries =
    record {
      key = text "API_KEY";
      envelope = text "k1";
      definition_id = text "d1";
      environment_id = text "e1";
    }
    ∷ []

abbrev pub hint : DynamicHint
hint = record {
  key = text "DB";
  definition_id = text "d2";
  environment_id = text "e1";
  provider = pos 0;
}

abbrev pub http : Http
http = record {
  State = ℕ;
  send = λ request s. (ok (record { status = 200; body = [] }), s);
  now = λ s. s;
  query_escape = λ s. s;
  quote = λ s. s;
  marshal_login = λ id secret. id ++ secret;
  decode_token = λ s. ok (record { access_token = text "fresh"; expires_in_seconds = pos 3600 });
  decode_keys = λ s. ok keys;
  decode_bundle = λ s. ok (record {
    org_key_id = text "org1";
    wrapped_org_key = text "wrapped";
    secrets = entries;
    dynamic_secrets = hint ∷ [];
  });
}

abbrev pub cached : CachedToken
cached = record { value = text "tok"; expires_at = 600_000_000_000 }

abbrev pub client : Client http
client = record { tokens = (text "kmi_1", cached) ∷ []; unwrap_key = []; http = 0 }

-- A provider that does nothing.
abbrev pub targets : Targets
targets = record {
  State = ℕ;
  Config = Text;
  decode_config = λ s. ok s;
  mint = λ provider work s. (
    ok (record {
      username = work.username;
      password = work.password;
      session_token = [];
      access_key_id = [];
      url = [];
    }),
    s,
  );
  renew = λ provider work s. (ok tt, s);
  revoke = λ provider work s. (ok tt, s);
  render_username = λ template identity name type_name s. (identity, s);
  render_url = λ template minted config expires. template;
  random_string = λ n s. (text "p", s);
  marshal_minted = λ minted. minted.username;
  parse_time = λ s. 0;
  format_time = λ t. text "later";
  now = λ s. s;
}

abbrev pub item : WorkItem
item = record {
  lease_id = text "lease1";
  definition_id = text "d2";
  environment_id = text "e1";
  key = text "DB";
  provider = pos 0;
  action = pos 0;
  username_template = [];
  creation_statement = [];
  revocation_statement = [];
  renew_statement = [];
  url_template = [];
  provider_envelope = text "config";
  identity_name = text "web";
  dynamic_secret_name = text "db";
  expires_at = [];
  entity_id = [];
}

abbrev pub minted : Minted
minted = record {
  username = text "u1";
  password = text "p1";
  session_token = [];
  access_key_id = [];
  url = text "db://host";
}

abbrev pub lease_json : LeaseJson
lease_json = record {
  decode_batch = λ s. ok (record { org_key_id = text "org1"; wrapped_org_key = s; items = [] });
  decode_lease = λ s. ok (record { id = text "lease2"; status = 0; has_minted_envelope = false });
  decode_envelope = λ s. ok (record {
    key = text "DB";
    definition_id = text "d2";
    environment_id = text "e1";
    envelope = text "sealed";
  });
  decode_minted = λ s. ok minted;
  marshal_complete = λ completion. completion.lease_id;
}

abbrev pub session : Session http targets
session = record { client = client; targets = 0 }
