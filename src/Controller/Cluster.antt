-- ===== src/Controller/Cluster.antt =====
-- internal/controller/cluster_credentials.go. The environment is an argument: the value of a
-- variable that is not set is empty.
use kryptic_k8s_operator.Base.{
  Bool, false, ◌&&◌, ◌||◌, not, List, [], ◌∷◌, Text, text, ◌==◌, text_eq, if◌then◌else◌,
}
use kryptic_k8s_operator.Strings.{split, trim_space}
use kryptic_k8s_operator.Krypticapi.{Credentials, default_base_url}

pub record ClusterCredentials : Type 0 where
  pub client_id : Text
  pub client_secret : Text
  pub base_url : Text
  pub namespaces : List Text

-- `Configured`
unfoldable pub is_configured : ClusterCredentials → Bool
is_configured c = not (c.client_id == []) && not (c.client_secret == [])

-- `AllowsNamespace`: the loop over the allowed namespaces.
unfoldable pub lists_namespace : List Text → Text → Bool
lists_namespace [] namespace = false
lists_namespace (allowed ∷ rest) namespace =
    allowed == text "*" || allowed == namespace || lists_namespace rest namespace

unfoldable pub allows_namespace : ClusterCredentials → Text → Bool
unfolding lists_namespace
allows_namespace c namespace = lists_namespace c.namespaces namespace

-- `ClusterCredentials.Credentials`
unfoldable pub credentials_of : ClusterCredentials → Credentials
credentials_of c = record {
  base_url = if c.base_url == [] then default_base_url else c.base_url;
  client_id = c.client_id;
  client_secret = c.client_secret;
}

-- The loop of `splitList` over the parts.
trim_entries : List Text → List Text
trim_entries [] = []
trim_entries (entry ∷ rest) =
    let entries = trim_entries rest in
    if trim_space entry == [] then entries else trim_space entry ∷ entries

-- `splitList`
unfoldable pub split_list : Text → List Text
unfolding trim_entries
split_list raw = trim_entries (split b',' raw)

-- `ClusterCredentialsFromEnv`
unfoldable pub cluster_credentials_from_env : (Text → Text) → ClusterCredentials
unfolding split_list
cluster_credentials_from_env getenv = record {
  client_id = getenv (text "KRYPTIC_CLIENT_ID");
  client_secret = getenv (text "KRYPTIC_CLIENT_SECRET");
  base_url = getenv (text "KRYPTIC_API_URL");
  namespaces = split_list (getenv (text "KRYPTIC_CLUSTER_NAMESPACES"));
}
