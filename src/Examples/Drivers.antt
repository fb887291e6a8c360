-- ===== src/Examples/Drivers.antt =====
-- Temporary files as their list, drivers that refuse a statement `bad` and a command `BAD`, and an
-- IAM with one user at most.
use kryptic_k8s_operator.Base.Int.{pos}
use kryptic_k8s_operator.Base.{
  refl, Bool, true, false, Option, none, some, List, [], ◌∷◌, Text, text, ◌==◌, text_eq, arith,
  if◌then◌else◌,
}
use kryptic_k8s_operator.Strings.Find.{has_prefix}
use kryptic_k8s_operator.Errors.{GoError, plain, Result, ok, err}
use kryptic_k8s_operator.Dynsecret.Templates.{ProviderConfig, Work}
use kryptic_k8s_operator.Dynsecret.Sql.{TempFiles, Databases}
use kryptic_k8s_operator.Dynsecret.Redis.{RedisLibrary}
use kryptic_k8s_operator.Dynsecret.Cassandra.{CqlLibrary}
use kryptic_k8s_operator.Dynsecret.Awsiam.{Aws, AwsKeys}
use kryptic_k8s_operator.Dynsecret.Dispatch.{Drivers}
use kryptic_k8s_operator.Dynsecret.Dispatch.Files.{
  IsLawfulFiles, KeepsDatabases, KeepsRedis, KeepsCql, KeepsAws,
}
use kryptic_k8s_operator.Examples.Username.{case_of}

abbrev pub ca_path : Text
ca_path = text "/tmp/ca.pem"

-- The file goes if it is the last that was made.
abbrev pub unlink : Text → List Text → List Text
unlink name [] = []
unlink name (file ∷ files) = if file == name then files else file ∷ files

abbrev pub files : TempFiles (List Text)
files = record {
  create_temp = λ s. (ok ca_path, ca_path ∷ s);
  write_string = λ name ca s. (ok tt, s);
  close_file = λ name s. (ok tt, s);
  remove = unlink;
}

abbrev pub databases : Databases (List Text)
databases = record {
  Db = Text;
  sql_open = λ driver dsn s. (ok dsn, s);
  ping = λ db s. (ok tt, s);
  exec =
      λ db stmt s. (if has_prefix (text "bad") stmt then err (plain (text "syntax")) else ok tt, s);
  close_db = λ db s. s;
}

abbrev pub redis_library : RedisLibrary (List Text)
redis_library = record {
  Conn = Text;
  new_client = λ options. options.addr;
  send_command = λ client words s. (
    elim words [
      | [] ↦ ok tt
      | word ∷ rest ↦ if word == text "BAD" then err (plain (text "unknown")) else ok tt
    ],
    s,
  );
  close_client = λ client s. s;
}

abbrev pub cql : CqlLibrary (List Text)
cql = record {
  Session = Text;
  create_session = λ cluster s. (ok [], s);
  exec_query = λ session stmt s. (ok tt, s);
  close_session = λ session s. s;
}

abbrev pub some_keys : AwsKeys
some_keys = record {
  access_key_id = text "AKIA";
  secret_access_key = text "secret";
  session_token = [];
}

-- IAM with its users as one that may be there.
abbrev pub delete_one : Text → Option Text → Result (Unit {0}) × Option Text
delete_one name none = (err (plain (text "NoSuchEntity")), none)
delete_one name (some user) =
    if user == name then (ok tt, none) else (err (plain (text "NoSuchEntity")), some user)

abbrev pub no_such : GoError → Bool
no_such (plain message) = message == text "NoSuchEntity"
no_such _ = false

abbrev pub is_user : Option Text → Text → Bool
is_user none name = false
is_user (some user) name = user == name

abbrev pub iam : Aws (Option Text)
iam = record {
  AwsConfig = Text;
  load_config = λ region keys s. (ok region, s);
  assume_role = λ aws input s. (ok some_keys, s);
  get_session_token = λ aws duration s. (ok some_keys, s);
  create_user = λ aws input s. (ok tt, some input.user_name);
  put_user_policy = λ aws name policy document s. (ok tt, s);
  create_access_key = λ aws name s. (ok some_keys, s);
  list_access_keys = λ aws name s.
      (if is_user s name then ok (text "AKIA" ∷ []) else err (plain (text "NoSuchEntity")), s);
  delete_access_key = λ aws name key s. (ok tt, s);
  delete_user_policy = λ aws name policy s. (ok tt, s);
  delete_user = λ aws name s. delete_one name s;
  is_no_such_entity = no_such;
  simple_fold = λ r q. false;
}

-- One that does nothing.
abbrev pub idle_aws : Aws (List Text)
idle_aws = record {
  AwsConfig = Text;
  load_config = λ region keys s. (ok region, s);
  assume_role = λ aws input s. (ok some_keys, s);
  get_session_token = λ aws duration s. (ok some_keys, s);
  create_user = λ aws input s. (ok tt, s);
  put_user_policy = λ aws name policy document s. (ok tt, s);
  create_access_key = λ aws name s. (ok some_keys, s);
  list_access_keys = λ aws name s. (ok [], s);
  delete_access_key = λ aws name key s. (ok tt, s);
  delete_user_policy = λ aws name policy s. (ok tt, s);
  delete_user = λ aws name s. (ok tt, s);
  is_no_such_entity = no_such;
  simple_fold = λ r q. false;
}

abbrev pub config : ProviderConfig
config = record {
  host = text "db";
  port = pos 0;
  username = text "admin";
  password = text "p@ss/w:rd?";
  database = text "app";
  ssl = true;
  ca = text "PEM";
  ssl_verify = none;
  hosts = [];
  local_dc = [];
  keyspace = [];
  tls = false;
  auth_method = [];
  credential_type = [];
  access_key_id = [];
  secret_access_key = [];
  role_arn = [];
  region = [];
  duration_seconds = pos 900;
  policy_document = [];
  permission_boundary = [];
  iam_user_path = [];
}

abbrev pub work : Work
work = record {
  config = config;
  username = text "u1";
  password = text "p1";
  creation_statement = text "CREATE {{username}}; bad {{password}}";
  revocation_statement = text "DROP {{username}}";
  renew_statement = [];
  url_template = [];
  expires_at = 0;
  entity_id = [];
}

abbrev pub drivers : Drivers
drivers = record {
  State = List Text;
  files = files;
  databases = databases;
  build_url = λ host port database username password options. host;
  redis_library = redis_library;
  cql = cql;
  aws = idle_aws;
  random_string = λ n s. (text "p", s);
  text_case = case_of;
  unmarshal_config = λ s. ok config;
  marshal_minted = λ minted. minted.username;
  parse_time = λ s. 0;
  layout = record { format = λ t. text "soon"; order = λ vars. vars };
  format_time = λ t. text "soon";
  now = λ s. 0;
}

abbrev pub present : List Text → List Text
present s = s

pub files-lawful : IsLawfulFiles present files
files-lawful = record {
  created = λ s name made. ground arith;
  not_created = λ s e failed. ground arith;
  written = λ name ca s. refl;
  closed = λ name s. refl;
  removed = λ name s rest there. rw there (ground arith);
}

pub databases-kept : KeepsDatabases present databases
databases-kept = record {
  sql_open = λ driver dsn s. refl;
  ping = λ db s. refl;
  exec = λ db stmt s. refl;
  close_db = λ db s. refl;
}

pub redis-kept : KeepsRedis present redis_library
redis-kept = record { send_command = λ client words s. refl; close_client = λ client s. refl }

pub cql-kept : KeepsCql present cql
cql-kept = record {
  create_session = λ cluster s. refl;
  exec_query = λ session stmt s. refl;
  close_session = λ session s. refl;
}

pub aws-kept : KeepsAws present idle_aws
aws-kept = record {
  load_config = λ region keys s. refl;
  assume_role = λ aws input s. refl;
  get_session_token = λ aws duration s. refl;
  create_user = λ aws input s. refl;
  put_user_policy = λ aws name policy document s. refl;
  create_access_key = λ aws name s. refl;
  list_access_keys = λ aws name s. refl;
  delete_access_key = λ aws name key s. refl;
  delete_user_policy = λ aws name policy s. refl;
  delete_user = λ aws name s. refl;
}
