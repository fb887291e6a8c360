-- ===== src/Dynsecret/Awsiam.antt =====
-- internal/dynsecret/awsiam.go, over the AWS SDK.
pub mod Revoked
pub mod Succeeds
pub mod Duration
use kryptic_k8s_operator.Base.Int.{ℤ, pos, negsuc}
use kryptic_k8s_operator.Base.{
  ℕ, ◌-◌, ◌%◌, Bool, ◌||◌, Option, none, some, List, [], ◌∷◌, Text, text, ◌==◌, text_eq, nat_eq,
  if◌then◌else◌, ltb, leb,
}
use kryptic_k8s_operator.Strings.Fold.{to_lower, equal_fold}
use kryptic_k8s_operator.Errors.{GoError, Step, Result, ok, err, ◌>>=◌, ◌>>◌, return}
use kryptic_k8s_operator.Dynsecret.Provider.{Minted}
use kryptic_k8s_operator.Dynsecret.Templates.{ProviderConfig, Work}

-- An access key, with the token of a session that has one.
pub record AwsKeys : Type 0 where
  pub access_key_id : Text
  pub secret_access_key : Text
  pub session_token : Text

-- `sts.AssumeRoleInput`
pub record AssumeRole : Type 0 where
  pub role_arn : Text
  pub role_session_name : Text
  pub duration_seconds : Option ℕ

-- `iam.CreateUserInput`
pub record CreateUser : Type 0 where
  pub user_name : Text
  pub path : Text
  pub permissions_boundary : Option Text

-- `config.LoadDefaultConfig` at a region and static credentials, if given, and the calls of STS and
-- IAM. `is_no_such_entity` is `errors.As` at `*iamtypes.NoSuchEntityException`, and `simple_fold`
-- Unicode's table of the runes that fold together.
pub record Aws (State : Type 0) : Type 1 where
  pub AwsConfig : Type 0
  pub load_config : Text → Option AwsKeys → Step State AwsConfig
  pub assume_role : AwsConfig → AssumeRole → Step State AwsKeys
  pub get_session_token : AwsConfig → ℕ → Step State AwsKeys
  pub create_user : AwsConfig → CreateUser → Step State (Unit {0})
  pub put_user_policy : AwsConfig → Text → Text → Text → Step State (Unit {0})
  pub create_access_key : AwsConfig → Text → Step State AwsKeys
  pub list_access_keys : AwsConfig → Text → Step State (List Text)
  pub delete_access_key : AwsConfig → Text → Text → Step State (Unit {0})
  pub delete_user_policy : AwsConfig → Text → Text → Step State (Unit {0})
  pub delete_user : AwsConfig → Text → Step State (Unit {0})
  pub is_no_such_entity : GoError → Bool
  pub simple_fold : Text → Text → Bool

abbrev pub lease_policy : Text
lease_policy = text "kryptic-lease"

abbrev two_31 : ℕ
two_31 = 2_147_483_648

abbrev two_32 : ℕ
two_32 = 4_294_967_296

-- The bits of `int32(d)`.
int32_bits : ℤ → ℕ
int32_bits (pos n) = n % two_32
int32_bits (negsuc n) = two_32 - 1 - n % two_32

-- `int32(d)`, where it is above 0.
unfoldable pub positive_int32 : ℤ → Option ℕ
unfolding int32_bits
positive_int32 d =
    if int32_bits d == 0 || leb two_31 (int32_bits d) then none else some (int32_bits d)

-- `duration` of `mintSTS`, at most `limit`.
unfoldable pub session_duration : ℕ → ℤ → ℕ
session_duration limit seconds = elim (positive_int32 seconds) [
  | none ↦ 3600
  | some d ↦ if ltb limit d then limit else d
]

-- The methods of `awsConfig`.
pub data AuthMethod : Type 0 where
  access_key assume_role host_chain : AuthMethod

-- The switch on the method.
unfoldable pub auth_method_of : Text → AuthMethod
auth_method_of raw =
    let method : Text = to_lower raw in
    if method == [] || method == text "access_key" || method == text "accesskey"
    then access_key
    else if method == text "assume_role" || method == text "assumerole"
    then assume_role
    else host_chain

-- `kind` is that of credentials for a time.
unfoldable pub is_temporary_kind : Text → Bool
is_temporary_kind kind = kind == text "temporary" || kind == text "sts"

-- The first test of `awsProvider.Revoke`.
unfoldable pub needs_no_revoke : (Text → Text → Bool) → Text → Bool
needs_no_revoke simple_fold kind =
    equal_fold simple_fold kind (text "temporary") || equal_fold simple_fold kind (text "sts")

abbrev pub region_of : ProviderConfig → Text
region_of cfg = if cfg.region == [] then text "us-east-1" else cfg.region

abbrev pub static_keys : ProviderConfig → AwsKeys
static_keys cfg = record {
  access_key_id = cfg.access_key_id;
  secret_access_key = cfg.secret_access_key;
  session_token = [];
}

abbrev pub connector_role : ProviderConfig → AssumeRole
connector_role cfg = record {
  role_arn = cfg.role_arn;
  role_session_name = text "kryptic-connector";
  duration_seconds = none;
}

-- What `mintSTS` and `mintIAMUser` return.
abbrev pub minted_keys : Work → AwsKeys → Minted
minted_keys work keys = record {
  username = work.username;
  password = keys.secret_access_key;
  session_token = keys.session_token;
  access_key_id = keys.access_key_id;
  url = [];
}

-- The input of `mintSTS`.
unfoldable pub lease_role : Work → AssumeRole
lease_role work = record {
  role_arn = work.config.role_arn;
  role_session_name = work.username;
  duration_seconds = some (session_duration 3600 work.config.duration_seconds);
}

module _ {State : Type 0} (A : Aws State) where
  -- The cases of `awsConfig`.
  unfoldable pub config_by : AuthMethod → ProviderConfig → Step State A.AwsConfig
  config_by access_key cfg = A.load_config (region_of cfg) (some (static_keys cfg))
  config_by assume_role cfg = A.load_config (region_of cfg) (some (static_keys cfg)) >>= λ base.
      A.assume_role base (connector_role cfg) >>= λ keys. A.load_config (region_of cfg) (some keys)
  config_by host_chain cfg = A.load_config (region_of cfg) none

  -- `awsConfig`
  unfoldable pub aws_config : ProviderConfig → Step State A.AwsConfig
  unfolding config_by
  aws_config cfg = config_by (auth_method_of cfg.auth_method) cfg

  -- `mintSTS`
  unfoldable pub mint_sts : A.AwsConfig → Work → Step State Minted
  unfolding lease_role
  mint_sts aws work =
      if work.config.role_arn == []
      then (A.get_session_token aws (session_duration 43200 work.config.duration_seconds)
          >>= λ keys. return (minted_keys work keys))
      else A.assume_role aws (lease_role work) >>= λ keys. return (minted_keys work keys)

  -- `input` of `mintIAMUser`
  unfoldable pub user_input : Work → CreateUser
  user_input work = record {
    user_name = work.username;
    path = if work.config.iam_user_path == [] then text "/" else work.config.iam_user_path;
    permissions_boundary =
        if work.config.permission_boundary == []
        then none
        else some work.config.permission_boundary;
  }

  -- `mintIAMUser`
  unfoldable pub mint_iam_user : A.AwsConfig → Work → Step State Minted
  unfolding user_input
  mint_iam_user aws work =
      A.create_user aws (user_input work)
      >> (if work.config.policy_document == []
          then return tt
          else A.put_user_policy aws work.username lease_policy work.config.policy_document)
      >> (A.create_access_key aws work.username >>= λ keys.
          return (minted_keys work (record keys { session_token = [] })))

  -- `awsProvider.Mint`
  unfoldable pub aws_mint : Work → Step State Minted
  aws_mint work = aws_config work.config >>= λ aws.
      if is_temporary_kind (to_lower work.config.credential_type)
      then mint_sts aws work
      else mint_iam_user aws work

  -- `awsProvider.Renew`
  unfoldable pub aws_renew : Work → Step State (Unit {0})
  aws_renew work = return tt

  -- The loop over the keys, which goes on after an error.
  unfoldable pub delete_keys : A.AwsConfig → Text → List Text → State → State
  delete_keys aws name [] s = s
  delete_keys aws name (key ∷ keys) s =
      delete_keys aws name keys (A.delete_access_key aws name key s).1

  -- No entity is no error.
  unfoldable pub unless_gone : GoError → Result (Unit {0})
  unless_gone e = if A.is_no_such_entity e then ok tt else err e

  -- `awsProvider.Revoke` from its list of keys on.
  unfoldable pub delete_user_of : A.AwsConfig → Text → Step State (Unit {0})
  unfolding delete_keys unless_gone
  delete_user_of aws name s =
      let (listed, s1) = A.list_access_keys aws name s in
      elim listed [
        | err e ↦ (unless_gone e, s1)
        | ok keys ↦
            let s2 : State = delete_keys aws name keys s1 in
            let s3 : State = (A.delete_user_policy aws name lease_policy s2).1 in
            let (deleted, s4) = A.delete_user aws name s3 in
            elim deleted [ err e ↦ (unless_gone e, s4) | ok done ↦ (ok tt, s4) ]
      ]

  -- `name` of `awsProvider.Revoke`
  unfoldable pub revoked_name : Work → Text
  revoked_name work = if work.entity_id == [] then work.username else work.entity_id

  -- `awsProvider.Revoke`
  unfoldable pub aws_revoke : Work → Step State (Unit {0})
  aws_revoke work =
      if needs_no_revoke A.simple_fold work.config.credential_type
      then return tt
      else aws_config work.config >>= λ aws. delete_user_of aws (revoked_name work)
