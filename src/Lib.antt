-- ===== src/Lib.antt =====
-- A verification library for the Kryptic Kubernetes operator.
--
-- The operator keeps a Kubernetes Secret in sync with a project and environment of the Kryptic
-- platform. The manager (internal/controller/manager.go) watches KrypticSecret resources, queues
-- them, and for each one runs the reconciler (internal/controller/reconcile.go), which finds the
-- machine credentials, asks the API client (internal/krypticapi) for the decrypted bundle and for
-- dynamic leases, and writes the Secret. The manager then writes the resource's status, and
-- remembers the version so that its watch drops the echo of that write. Dynamic leases mint
-- credentials with internal/dynsecret.
--
-- The files, by the code that they are about:
--   Base, Strings     what is shared: lists, texts as bytes, Go maps as association lists (an entry
--                     that is overwritten keeps its place), and the functions of Go's `strings`
--   Errors            Go's error values with their wrapping; APIError of internal/krypticapi/client.go
--                     (`Error` is `api_error_text`, `Permanent` is `permanent`)
--   Controller.Types  internal/controller/types.go
--   Controller.Cluster  internal/controller/cluster_credentials.go (`AllowsNamespace` is
--                     `allows_namespace`, `splitList` is `split_list`)
--   Controller.ApiUrl   internal/controller/api_url_policy.go (`Validate` is `validate`); its
--                     child describes the accepted URLs
--   Controller.Kube   the calls on Secrets that the code makes, and what the API server is assumed
--                     to do; the world of the reconciler: those Secrets and the platform
--   Controller.Reconcile  internal/controller/reconcile.go: `Reconcile` is `reconcile`, cut at its
--                     calls into `sync_bundle`, `sync_leases` and `write_secret`; `RevokeCRLeases`
--                     is `revoke_cr_leases`; the children Secrets, Backoff and Auth have
--                     `applySecret`, the results and `credentials`; the other children are proofs:
--                     Requeue and Permanent on waits, Apply and Safety on what is written, Contents on the data
--                     and the annotations of the Secret, Granted on credentials
--   Controller.Manager  internal/controller/manager.go: the memory of own writes and the body of
--                     the watch loop; Echo interleaves them; Finalizer, Status and One have
--                     `setFinalizer`, `updateStatus` and `reconcileOne`; Run has the loop of `Run` with
--                     the watch, over a queue with its processing set, Unstructured `ToUnstructured`; One.Deletion and One.Waits are proofs
--   Krypticapi        internal/krypticapi/client.go: the interface that the reconciler uses
--   Krypticapi.Decrypt  the data of the client and the local decryption; Chain describes the bundle
--   Krypticapi.Client   `Fetch` is `fetch`, `get` and `do` are `call`, `token` is `token`,
--                     `deriveUnwrapKey` is `derive_unwrap_key`; Caches is on both caches,
--                     Unauthorized on what follows an answer 401
--   Krypticapi.Leases   internal/krypticapi/leases.go: its data; Work has the work on one lease
--                     (`ensureLease` is `ensure_lease`, `applyItem` is `apply_item`, `revokeOne`
--                     is `revoke_one`), Sync has `SyncDynamic` and `RevokeLeases`; Minting, Kept
--                     and Expanded are proofs
--   Dynsecret         internal/dynsecret: Provider has the data of apply.go and provider.go with
--                     `Lookup`, Apply `Apply` of apply.go, Templates the templates of provider.go
--   Dynsecret.Random, .Sanitize, .Quoted, .Username  internal/dynsecret/username.go:
--                     `RandomString`, `Sanitize`, `splitQuoted` and `RenderUsername`; the children
--                     of Username are proofs
--   Dynsecret.Sql     internal/dynsecret/sql.go and oracle.go: `runSQL` is `run_sql`, `writeTempCA`
--                     is `write_temp_ca`; Dsn has the data source names, Providers the providers;
--                     Parameters is the driver's reading of MySQL's name; Security,
--                     Verified, Userinfo and Statements are proofs
--   Dynsecret.Redis, .Cassandra, .Awsiam  internal/dynsecret/redis.go, cassandra.go and awsiam.go
--   Dynsecret.Dispatch  the providers behind one interface; Files is on their temporary files,
--                     Agreed on their TLS
--   Examples          concrete inputs: an API server, a platform and a client in memory
--
-- State is passed explicitly. A step over a world that may fail (`Step`) keeps the changes that it
-- made before it failed. What is not the operator's own code is a parameter: the API server (`Kube`
-- with the laws `IsLawful`), the dynamic client (`Resources`), HTTP, JSON and the clock (`Http`,
-- `LeaseJson`), the encryption library (`Crypto`), `url.Parse`, `time.ParseDuration` and the JSON of
-- lease ids (`Library`). Two interfaces stand between parts of the operator: `Fetcher`, by which the
-- reconciler sees the platform and which `client_fetcher` of Krypticapi.Leases.Sync fills; and
-- `Targets`, by which `Apply` sees the providers and the templates, and which `targets_of` of
-- Dynsecret.Dispatch fills. `IsLawful` says that reads change nothing, that refused writes change
-- nothing and that accepted writes are read back; so where it is assumed no other writer acts
-- within that one reconcile.
--
-- Bounds and fuel: durations are nanoseconds and are never negative after
-- `RefreshIntervalOrDefault`; times and status counts are natural numbers, which no sum of the code
-- overflows. The lifetime of a token, which the platform chooses, wraps in 64 bits
-- (`duration_bits`). `strip` of Strings runs on the length of its text, each step of which drops at
-- least one byte; `decimal` runs on one more than its number, which every division makes smaller.
-- `RandomString` waits for entropy without a bound: here it takes its buffers from a list, and
-- has no result where they run out. Texts are bytes in UTF-8. `equal_fold` of
-- Strings.Fold compares by Unicode's folding: ASCII and the two letters that fold into it are written
-- out, the rest of the table is the parameter `simple_fold`.
-- The loops of `RenderUsername` run as many rounds as the text has opening braces, since every round
-- takes one away; that of `replace` as many as it has quotes, and spaces between two of these, since
-- a round takes a quote or, with none, a space. Scripts and lists of keys are finite.
--
-- What stands behind the providers is a parameter too: the temporary files (`TempFiles`),
-- `database/sql` (`Databases`), the clients of Redis and Cassandra, the AWS SDK (`Aws`), and in the
-- manager the work queue (`Queue`). Go ranges over a map in any order; the templates here go through
-- their variables in the order that the parameter `order` gives (`Order`, `Layout`). Of net/url, `escape` is written out.
--
-- Not modelled: `unavailableProvider` and `SortedKeys`, which have no caller; `fromUnstructured`,
-- which is encoding/json; logging; and cmd/, which builds clients.
pub mod Base
pub mod Strings
pub mod Errors
pub mod Dynsecret
pub mod Krypticapi
pub mod Controller
pub mod Examples
