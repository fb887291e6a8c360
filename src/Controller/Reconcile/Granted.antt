-- ===== src/Controller/Reconcile/Granted.antt =====
-- Which credentials a reconcile may use, described apart from the order of the checks.
use kryptic_k8s_operator.Base.{
  ◌≡◌, ◌≢◌, ◌↔◌, ◌⊎◌, inl, inr, true, List, [], ◌∷◌, Text, text, arith, ◌==◌, contains, text_eq,
  text_dec, if◌then◌else◌,
}
use kryptic_k8s_operator.Errors.{Result-cases, ok}
use kryptic_k8s_operator.Krypticapi.{Credentials, default_base_url}
use kryptic_k8s_operator.Controller.Types.{KrypticSecret, Secret, auth_secret_name}
use kryptic_k8s_operator.Controller.Cluster.{
  ClusterCredentials, is_configured, lists_namespace, allows_namespace, credentials_of,
}
use kryptic_k8s_operator.Controller.ApiUrl.{UrlLibrary, ApiUrlPolicy, validate}
use kryptic_k8s_operator.Controller.ApiUrl.Accepted.{Accepted, validate_iff}
use kryptic_k8s_operator.Controller.Kube.{Kube}
use kryptic_k8s_operator.Controller.Reconcile.Auth.{
  Reconciler, data_at, base_url_of, read_credentials, credentials_from_secret, credentials,
}

lists_namespace_iff :
    (namespace : Text) (allowed : List Text)
    → (lists_namespace allowed namespace ≡ true)
      ↔ ((contains allowed (text "*") ≡ true) ⊎ (contains allowed namespace ≡ true))
unfolding lists_namespace
lists_namespace_iff namespace [] = ground arith
lists_namespace_iff namespace (a ∷ allowed) = ground (arith, lists_namespace_iff namespace allowed)

-- The operator's identity, for a namespace that its admin listed or for all by "*".
abbrev pub OfCluster : ClusterCredentials → Text → Credentials → Type 0
OfCluster cluster namespace c =
    (cluster.client_id ≢ [])
    × (cluster.client_secret ≢ [])
    × ((contains cluster.namespaces (text "*") ≡ true)
        ⊎ (contains cluster.namespaces namespace ≡ true))
    × (c.client_id ≡ cluster.client_id)
    × (c.client_secret ≡ cluster.client_secret)
    × (c.base_url ≡ (if cluster.base_url == [] then default_base_url else cluster.base_url))

-- The identity of a Secret, with the default URL or one that the policy accepts.
abbrev pub OfSecret : UrlLibrary → ApiUrlPolicy → Secret → Credentials → Type 0
OfSecret U policy s c =
    (c.client_id ≢ [])
    × (c.client_secret ≢ [])
    × (c.client_id ≡ data_at (text "clientId") s)
    × (c.client_secret ≡ data_at (text "clientSecret") s)
    × (((data_at (text "apiUrl") s ≡ []) × (c.base_url ≡ default_base_url))
        ⊎ ((data_at (text "apiUrl") s ≢ [])
            × (c.base_url ≡ data_at (text "apiUrl") s)
            × Accepted U policy c.base_url))

module _ (U : UrlLibrary) (policy : ApiUrlPolicy) where
  abbrev AcceptedBase : Text → Text → Type 0
  AcceptedBase url base =
      ((url ≡ []) × (base ≡ default_base_url))
      ⊎ ((url ≢ []) × (base ≡ url) × Accepted U policy base)

  base_url_of-Accepted :
      (url base : Text) → base_url_of U policy url ≡ ok base → AcceptedBase url base
  unfolding base_url_of
  base_url_of-Accepted url base e = elim (Result-cases (validate U policy url)) [
    | inl (e', refused) ↦ ground arith
    | inr (_, accepted) ↦ elim (text_dec url []) [
      | yes none_given ↦ inl (none_given, ground arith)
      | no given ↦
          let same : base ≡ url = ground arith in
          inr (given, same, rw same ((validate_iff U policy url).0 accepted))
    ]
  ]

  read_credentials-OfSecret :
      (name : Text) (s : Secret) (c : Credentials)
      → read_credentials U policy name s ≡ ok c
      → OfSecret U policy s c
  unfolding read_credentials
  read_credentials-OfSecret name s c e =
      elim (Result-cases (base_url_of U policy (data_at (text "apiUrl") s))) [
        | inl (e', refused) ↦ ground arith
        | inr (base, based) ↦
            let source = base_url_of-Accepted (data_at (text "apiUrl") s) base based in
            let same : c.base_url ≡ base = ground arith in
            (ground arith, ground arith, ground arith, ground arith, rw same source)
      ]

  OfSecret-read_credentials :
      (name : Text) (s : Secret) (c : Credentials)
      → OfSecret U policy s c
      → read_credentials U policy name s ≡ ok c
  unfolding read_credentials base_url_of
  OfSecret-read_credentials name s c (id, secret, same_id, same_secret, inl (none_given, base)) =
      ground arith
  OfSecret-read_credentials name s c (id, secret, same_id, same_secret, inr (given, base, good)) =
      ground (arith, (validate_iff U policy c.base_url).1 good)

module _ (K : Kube) (U : UrlLibrary) (r : Reconciler) (cr : KrypticSecret) (s : K.State)
    (c : Credentials) where
  -- The identity of the Secret which the resource names, in the resource's namespace; or the
  -- operator's, if it names none.
  abbrev pub Granted : Type 0
  Granted =
      ((auth_secret_name cr.spec ≢ [])
        × (v : Secret) × ((K.get cr.namespace (auth_secret_name cr.spec) s).0 ≡ ok v)
        × OfSecret U r.api_url v c)
      ⊎ ((auth_secret_name cr.spec ≡ []) × OfCluster r.cluster cr.namespace c)

  credentials_granted : (credentials K U r cr s).0 ≡ ok c → Granted
  unfolding credentials credentials_from_secret is_configured allows_namespace credentials_of
  credentials_granted e = elim (text_dec (auth_secret_name cr.spec) []) [
    | yes unnamed ↦
        inr (unnamed, ground (arith, lists_namespace_iff cr.namespace r.cluster.namespaces))
    | no named ↦ elim (Result-cases (K.get cr.namespace (auth_secret_name cr.spec) s).0) [
      | inl (e', missing) ↦ ground arith
      | inr (v, found) ↦ inl (
        named,
        v,
        found,
        read_credentials-OfSecret U r.api_url (auth_secret_name cr.spec) v c (ground arith),
      )
    ]
  ]

  granted_credentials : Granted → (credentials K U r cr s).0 ≡ ok c
  unfolding credentials credentials_from_secret is_configured allows_namespace credentials_of
  granted_credentials (inl (named, v, found, source)) =
      ground (arith, OfSecret-read_credentials U r.api_url (auth_secret_name cr.spec) v c source)
  granted_credentials (inr (unnamed, cluster)) =
      ground (arith, lists_namespace_iff cr.namespace r.cluster.namespaces)

  -- `credentials` grants exactly these: the identity in the Secret that the resource names, read in
  -- its own namespace, complete, and with a base URL that is left to the default or accepted by
  -- the policy; or, only if it names no Secret, the operator's identity, complete, in a namespace
  -- that the operator's list holds or "*" allows.
  pub credentials_iff : ((credentials K U r cr s).0 ≡ ok c) ↔ Granted
  credentials_iff = (credentials_granted, granted_credentials)
