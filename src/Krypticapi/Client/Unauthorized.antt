-- ===== src/Krypticapi/Client/Unauthorized.antt =====
-- What follows an answer 401: the next token of internal/krypticapi/client.go is a new one.
use kryptic_k8s_operator.Base.Dict
use kryptic_k8s_operator.Base.{◌++◌, Text, text, text_eq, nat_eq}
use kryptic_k8s_operator.Strings.{trim_suffix}
use kryptic_k8s_operator.Krypticapi.{Credentials}
use kryptic_k8s_operator.Krypticapi.Client.{Http, Client, Request}

module _ {H : Http} (creds : Credentials) (bearer method path body : Text) (c : Client H) where
  -- The request of `get` and `do`.
  abbrev pub request : Request
  request = record {
    method = method;
    url = trim_suffix b'/' creds.base_url ++ path;
    authorization = text "Bearer " ++ bearer;
    body = body;
  }
