-- ===== src/Dynsecret/Dispatch/Files.antt =====
-- The temporary files around what the providers do.
pub mod Keeps
pub mod Provided
pub mod Remote
pub mod Left
use kryptic_k8s_operator.Base.{ℕ, List, [], ◌∷◌, ◌≡◌, Text}
use kryptic_k8s_operator.Errors.{GoError, Result, ok, err, Step}
use kryptic_k8s_operator.Dynsecret.Sql.{TempFiles, Databases}
use kryptic_k8s_operator.Dynsecret.Redis.{RedisLibrary}
use kryptic_k8s_operator.Dynsecret.Cassandra.{CqlLibrary}
use kryptic_k8s_operator.Dynsecret.Awsiam.{Aws}

module _ {State : Type 0} (present : State → List Text) where
  -- A step that leaves the files as they were, whether it fails or not.
  abbrev pub Keeps {ℓ} : {A : Type ℓ} → Step State A → Type 0
  Keeps m = (s : State) → present (m s).1 ≡ present s

  -- What a step leaves behind goes with the cleanup that it gives; if it fails it leaves nothing.
  abbrev pub Owes {ℓ} : {A : Type ℓ} → Step State (A × (State → State)) → Type ℓ
  Owes {A} m =
      (s : State)
      → ((e : GoError) → (m s).0 ≡ err e → present (m s).1 ≡ present s)
        × ((a : A) (cleanup : State → State)
            → (m s).0 ≡ ok (a, cleanup)
            → (t : State) → present t ≡ present (m s).1
            → present (cleanup t) ≡ present s)

  -- What is documented of the temporary files: the last one that was made stands first.
  pub record IsLawfulFiles (F : TempFiles State) : Type 0 where
    pub created :
        (s : State) (name : Text)
        → (F.create_temp s).0 ≡ ok name
        → present (F.create_temp s).1 ≡ name ∷ present s
    pub not_created :
        (s : State) (e : _) → (F.create_temp s).0 ≡ err e → present (F.create_temp s).1 ≡ present s
    pub written : (name ca : Text) → Keeps (F.write_string name ca)
    pub closed : (name : Text) → Keeps (F.close_file name)
    pub removed :
        (name : Text) (s : State) (rest : List Text)
        → present s ≡ name ∷ rest
        → present (F.remove name s) ≡ rest

  -- The drivers make no temporary file of their own.
  pub record KeepsDatabases (D : Databases State) : Type 0 where
    pub sql_open : (driver dsn : Text) → Keeps (D.sql_open driver dsn)
    pub ping : (db : D.Db) → Keeps (D.ping db)
    pub exec : (db : D.Db) (stmt : Text) → Keeps (D.exec db stmt)
    pub close_db : (db : D.Db) (s : State) → present (D.close_db db s) ≡ present s

  pub record KeepsRedis (R : RedisLibrary State) : Type 0 where
    pub send_command : (client : R.Conn) (words : List Text) → Keeps (R.send_command client words)
    pub close_client : (client : R.Conn) (s : State) → present (R.close_client client s) ≡ present s

  pub record KeepsCql (Q : CqlLibrary State) : Type 0 where
    pub create_session : (cluster : _) → Keeps (Q.create_session cluster)
    pub exec_query : (session : Q.Session) (stmt : Text) → Keeps (Q.exec_query session stmt)
    pub close_session :
        (session : Q.Session) (s : State) → present (Q.close_session session s) ≡ present s

  pub record KeepsAws (A : Aws State) : Type 0 where
    pub load_config : (region : Text) (keys : _) → Keeps (A.load_config region keys)
    pub assume_role : (aws : A.AwsConfig) (input : _) → Keeps (A.assume_role aws input)
    pub get_session_token :
        (aws : A.AwsConfig) (duration : ℕ) → Keeps (A.get_session_token aws duration)
    pub create_user : (aws : A.AwsConfig) (input : _) → Keeps (A.create_user aws input)
    pub put_user_policy :
        (aws : A.AwsConfig) (name policy document : Text)
        → Keeps (A.put_user_policy aws name policy document)
    pub create_access_key : (aws : A.AwsConfig) (name : Text) → Keeps (A.create_access_key aws name)
    pub list_access_keys : (aws : A.AwsConfig) (name : Text) → Keeps (A.list_access_keys aws name)
    pub delete_access_key :
        (aws : A.AwsConfig) (name key : Text) → Keeps (A.delete_access_key aws name key)
    pub delete_user_policy :
        (aws : A.AwsConfig) (name policy : Text) → Keeps (A.delete_user_policy aws name policy)
    pub delete_user : (aws : A.AwsConfig) (name : Text) → Keeps (A.delete_user aws name)
