-- ===== src/Lib.antt =====
-- kube-aws-iam-controller keeps Kubernetes secrets with short-lived AWS credentials. It has two
-- controllers. For each AWSIAMRole object one of them (awsiamrole_controller.go) keeps a secret of
-- the same name; the other one (secrets_controller.go) keeps a secret for each role and namespace
-- of a store of the roles in use (role_store.go). Both get credentials from STS
-- (credentials_getter.go).
--
-- The files, by the part of the program:
-- - RoleStore: role_store.go. `add`, `remove` and `exists` are Add, Remove and Exists; a Go map is an
--   association list, and the order of the list is the order in which a range visits the map.
--   Invariant, Refinement and History hold its theorems.
-- - Credentials: credentials_getter.go. SessionName has normalizeRoleARN and normalizePath, with a
--   panic as a result of its own; Getter has STSCredentialsGetter.Get, BaseArn has GetBaseRoleARN
--   and GetPrefixFromARN, Types the data that goes in and out.
-- - Kube: the fields of the objects that the controllers use (pkg/apis/zalando.org/v1/types.go and
--   the core types); Cluster, the interface of the API server, the event recorder and the clock;
--   Recorded, the same with a record of the calls that reach it; Idles, steps that send nothing;
--   Server and RoleServer, what the documentation of the API server says of its calls while no other
--   client writes: an update of a stale copy is a conflict, and a creation may be refused.
-- - SecretFiles: what is in a secret: the files of getCreds, mergeLabels, isOwnedReference,
--   getGeneration and the test for credentials that expire soon. Decimal has strconv.ParseInt and
--   the printing of an int64.
-- - AwsIamRoleController: awsiamrole_controller.go. Renewal has what is done for one object, the
--   parent the loops of refresh, Loop the loop of Run. Calls, Listing, Allowed, Idle, Progress,
--   Freshness, Crash and Secrets hold the theorems. Settle is on what one refresh leaves: Calls and
--   Writes have the calls for one role, Statuses the roles, Good the secrets, First, Second, Third and
--   Sync the loops.
-- - SecretsController: secrets_controller.go, laid out the same way, with Calls, Allowed, Progress,
--   Idle and Loop; Liveness has the liveness check of Run. Settle is on what one refresh leaves: itself
--   and Visits say what holds between two rounds, Rounds and Creates have the loops of the refresh.
-- - StartUp: main.go. The parent finds out the base ARN, its prefix and the role to assume; Main is
--   `main` from the parsed flags to the two controllers; Running the goroutines that `main` starts,
--   handleSigterm among them, as steps that come in any order, with its theorems in Serving and
--   Returns; Spares is on the two controllers side by side.
-- - Informers: pkg/client/informers/externalversions. The parent has factory.go, Resource the
--   accessors down to the informer of the AWSIAMRoles; Sound, Given, Moves and Sync hold the theorems,
--   those of Moves on all interleavings of calls with the ends of goroutines.
-- - Clients: pkg/clientset/unified.go; Versioned and Zalando have the constructors of
--   pkg/client/clientset/versioned, Kubeconfig the theorem.
-- - Base: tests, lists, texts as lists of bytes, maps, integers, results, and Flow, the body of a Go
--   loop as a step on the state of the world that ends in a value, in a `continue` or in a panic.
-- - Examples: the theorems at concrete inputs.
--
-- The state of the world is a type that the theorems quantify over, and so are the answers of the
-- API server, of STS, of the clock and of the functions of the Go libraries for times and JSON:
-- they are fields of the records Cluster, CredentialsGetter, StsApi and Codec; client-go,
-- apimachinery and the SDK of AWS are the records ClientGo, Cache, NewInformer, Apimachinery and
-- AwsSdk. What a controller does is read off the record of the calls that it makes.
--
-- All loops are structural recursion over the lists that they range over, so no fuel is needed;
-- normalizePath recurses over the levels from the last to the first. Times are unbounded integers
-- of nanoseconds; the generation of an object is an int64, printed and read with its bounds, and
-- the product of a session duration wraps around at 64 bits.
--
-- The loop of Run is recursion over the list of what its select wakes up to.
--
-- The liveness check has the 64 bits of a duration written out: the product wraps around, and the
-- difference of two times is the nearest duration.
--
-- A step of the running program is one statement that waits, or one whole refresh: what the two
-- controllers do in their refreshes is not interleaved.
--
-- Not modelled: log lines, contexts inside calls, the parser of the flags (main.go), the set-up of the
-- recorder (pkg/recorder), and a second client that writes the same objects. Of the generated code the
-- deep copies, the fake clientset, the typed client, the listers and the registration of the types are
-- left out: they are instances of generic code of client-go and apimachinery.
pub mod Base
pub mod RoleStore
pub mod Decimal
pub mod Credentials
pub mod Kube
pub mod SecretFiles
pub mod AwsIamRoleController
pub mod SecretsController
pub mod StartUp
pub mod Informers
pub mod Clients
pub mod Examples
