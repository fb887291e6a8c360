-- ===== src/Controller/Reconcile/Auth.antt =====
-- Which machine identity a resource may use: `credentials` and `credentialsFromSecret`.
use kryptic_k8s_operator.Base.Dict
use kryptic_k8s_operator.Base.Dict.{Dict}
use kryptic_k8s_operator.Base.{◌||◌, none, some, [], ◌++◌, Text, text, ◌==◌, text_eq, if◌then◌else◌}
use kryptic_k8s_operator.Errors.{plain, wrap, Step, Result, ok, err}
use kryptic_k8s_operator.Krypticapi.{Credentials, default_base_url}
use kryptic_k8s_operator.Controller.Types.{KrypticSecret, Secret, auth_secret_name}
use kryptic_k8s_operator.Controller.Cluster.{
  ClusterCredentials, is_configured, allows_namespace, credentials_of,
}
use kryptic_k8s_operator.Controller.ApiUrl.{ApiUrlPolicy, UrlLibrary, validate}
use kryptic_k8s_operator.Controller.Kube.{Kube}

-- The settings of a `Reconciler`; its two clients are parameters.
pub record Reconciler : Type 0 where
  pub cluster : ClusterCredentials
  pub api_url : ApiUrlPolicy

-- `string(secret.Data[key])`
unfoldable pub data_at : Text → Secret → Text
data_at key s = elim (Dict.lookup key s.contents) [ none ↦ [] | some value ↦ value ]

module _ (U : UrlLibrary) where
  -- The base URL of a credentials Secret, checked by the policy where it is given.
  unfoldable pub base_url_of : ApiUrlPolicy → Text → Result Text
  base_url_of policy url =
      if url == []
      then ok default_base_url
      else elim (validate U policy url) [ ok _ ↦ ok url | err e ↦ err e ]

  unfoldable pub secret_error : Text → Text
  secret_error name = text "credentials secret " ++ (U.quote name ++ text ": ")

  -- `credentialsFromSecret`, once the Secret is read.
  unfoldable pub read_credentials : ApiUrlPolicy → Text → Secret → Result Credentials
  read_credentials policy name s =
      let client_id = data_at (text "clientId") s in
      let client_secret = data_at (text "clientSecret") s in
      if client_id == [] || client_secret == []
      then err (
          plain (
            text "credentials secret "
            ++ (U.quote name ++ text " must contain non-empty clientId and clientSecret keys")))
      else elim (base_url_of policy (data_at (text "apiUrl") s)) [
        | err e ↦ err (wrap (secret_error name) e)
        | ok base_url ↦
            ok
              (record { base_url = base_url; client_id = client_id; client_secret = client_secret })
      ]

module _ (K : Kube) (U : UrlLibrary) where
  -- `credentialsFromSecret`
  unfoldable pub credentials_from_secret : ApiUrlPolicy → Text → Text → Step K.State Credentials
  credentials_from_secret policy namespace name s =
      let (r, s') = K.get namespace name s in
      elim r [
        | err e ↦
            (err (wrap (text "reading credentials secret " ++ (U.quote name ++ text ": ")) e), s')
        | ok secret ↦ (read_credentials U policy name secret, s')
      ]

  -- `Reconciler.credentials`
  unfoldable pub credentials : Reconciler → KrypticSecret → Step K.State Credentials
  credentials r cr s =
      let name = auth_secret_name cr.spec in
      if name == []
      then (if is_configured r.cluster
          then (if allows_namespace r.cluster cr.namespace
              then (ok (credentials_of r.cluster), s)
              else (
                err (
                    plain (
                      text "namespace "
                      ++ (U.quote cr.namespace
                          ++ text
                              " may not use the operator's cluster credentials: add it to KRYPTIC_CLUSTER_NAMESPACES on the operator, or set spec.auth"))),
                s,
              ))
          else (
            err (
                plain (
                  text
                    "spec.auth.secretRef.name is empty and the operator has no cluster credentials (set KRYPTIC_CLIENT_ID and KRYPTIC_CLIENT_SECRET, or add spec.auth)")),
            s,
          ))
      else credentials_from_secret r.api_url cr.namespace name s
