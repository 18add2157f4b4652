-- ===== src/Examples/Controllers.antt =====
-- The theorems on the two controllers at a cluster with one secret and one role.
use kube_aws_iam_controller.Base.Tests.{◌*◌, ◌≡◌, refl, ◌↔◌, true, none, some, inl, inr, arith}
use kube_aws_iam_controller.Base.Lists.{List, [], ◌∷◌, All, Any, Member}
use kube_aws_iam_controller.Base.Int.{pos, negsuc, ◌+ℤ◌}
use kube_aws_iam_controller.Base.Outcome.{Outcome, ok}
use kube_aws_iam_controller.Base.Text.{Text, codes, text_eq}
use kube_aws_iam_controller.Base.GoMap.{lookup}
use kube_aws_iam_controller.Base.GoMap.Index.{DistinctKeys}
use kube_aws_iam_controller.Credentials.Types.{CredentialsGetter, second}
use kube_aws_iam_controller.Decimal.{parse_int, parse_uint, parse_digits, push_digit, signed}
use kube_aws_iam_controller.Kube.Types.{ObjectMeta, OwnerReference, Secret, SecretData, AwsIamRole}
use kube_aws_iam_controller.Kube.Cluster.{Cluster}
use kube_aws_iam_controller.SecretFiles.{
  Codec, soon, expires_soon, lookup_data, expire_key, aws_iam_role_generation_key,
  is_owned_reference, get_generation, with_generation,
}
use kube_aws_iam_controller.SecretFiles.Laws.{
  References, is_owned_reference-Any, get_generation-with_generation,
}
use kube_aws_iam_controller.RoleStore.History.{adds, run, run-StoreValid}
use kube_aws_iam_controller.AwsIamRoleController.Renewal.{AwsIamRoleController, observed}
use kube_aws_iam_controller.AwsIamRoleController.{secret_key, role_key}
use kube_aws_iam_controller.AwsIamRoleController.{refresh as refresh_roles}
use kube_aws_iam_controller.AwsIamRoleController.Calls.{with_record as with_roles_record}
use kube_aws_iam_controller.AwsIamRoleController.Listing.{Listed}
use kube_aws_iam_controller.AwsIamRoleController.Allowed.{Allowed as AllowedForRoles}
use kube_aws_iam_controller.AwsIamRoleController.Allowed.Refresh.{refresh-Allowed}
use kube_aws_iam_controller.AwsIamRoleController.Idle.{IsFresh, AllOwned, AllSynced, refresh-idle}
use kube_aws_iam_controller.SecretsController.Renewal.{SecretsController}
use kube_aws_iam_controller.SecretsController.{refresh}
use kube_aws_iam_controller.SecretsController.Calls.{with_record}
use kube_aws_iam_controller.SecretsController.Allowed.{Allowed}
use kube_aws_iam_controller.SecretsController.Allowed.Refresh.{refresh-Allowed_by_store}

abbrev pub meta : Text → List OwnerReference → ObjectMeta
meta name refs = record {
  name = name;
  namespace = codes "default";
  uid = codes "u1";
  resource_version = [];
  generation = pos 3;
  labels = [];
  owner_references = refs;
}

abbrev some_reference : OwnerReference
some_reference = record {
  api_version = codes "v1";
  kind = codes "AWSIAMRole";
  name = codes "app";
  uid = codes "u1";
}

abbrev pub some_role : AwsIamRole
some_role = record {
  type_meta = record { api_version = codes "v1"; kind = codes "AWSIAMRole" };
  object_meta = meta (codes "app") [];
  spec = record { role_reference = codes "reader"; role_session_duration = pos 0 };
  status = record { observed_generation = some (pos 3); role_arn = []; expiration = none };
}

-- A secret of the role, of its generation and with time left.
abbrev some_data : SecretData
some_data = (expire_key, codes "z") ∷ (aws_iam_role_generation_key, codes "3") ∷ []

abbrev pub some_secret : Secret
some_secret = record {
  object_meta = meta (codes "app") (some_reference ∷ []);
  data_map = some some_data;
}

-- A secret that nobody owns.
abbrev pub free_secret : Secret
free_secret = record { object_meta = meta (codes "aws-iam-reader") []; data_map = none }

-- Every expiry time that is read lies far ahead.
abbrev pub some_codec : Codec
some_codec = record {
  format_time = λ t. codes "z";
  parse_time = λ t. ok (pos 1000);
  marshal = λ p. ok [];
}

abbrev pub some_creds : {S : Type 0} → CredentialsGetter S
some_creds = record {
  get = λ role d s. (
    ok (record {
      role_arn = role;
      access_key_id = codes "id";
      secret_access_key = codes "key";
      session_token = codes "token";
      expiration = pos 1000;
    }),
    s,
  );
}

-- A cluster that lists one secret and what it is told of roles, and accepts every call.
abbrev pub some_cluster : {S : Type 0} → Secret → Outcome (List AwsIamRole) → Cluster S
some_cluster secret roles = record {
  list_secrets = λ namespace labels s. (ok (secret ∷ []), s);
  list_aws_iam_roles = λ namespace s. (roles, s);
  update_secret = λ namespace x s. (ok tt, s);
  create_secret = λ namespace x s. (ok tt, s);
  delete_secret = λ namespace name s. (ok tt, s);
  update_status = λ namespace role s. (ok tt, s);
  record_event = λ role event s. s;
  now = λ s. (pos 10, s);
}

abbrev pub roles_controller : Outcome (List AwsIamRole) → AwsIamRoleController (Unit {0})
roles_controller roles = record {
  client = some_cluster some_secret roles;
  codec = some_codec;
  interval = pos (10 * second);
  refresh_limit = pos 20;
  creds = some_creds;
  namespace = [];
}

some_lists :
    Listed (roles_controller (ok (some_role ∷ []))) tt tt (some_secret ∷ []) (some_role ∷ [])
some_lists = record { between = tt; secrets_listed = refl; roles_listed = refl }

distinct_role : DistinctKeys role_key (some_role ∷ [])
distinct_role = ((λ y mem. absurd mem), tt)

distinct_secret : DistinctKeys secret_key (some_secret ∷ [])
distinct_secret = ((λ y mem. absurd mem), tt)

refresh-Allowed_example :
    All
      (AllowedForRoles (some_secret ∷ []) (some_role ∷ []))
      (refresh_roles (with_roles_record (roles_controller (ok (some_role ∷ [])))) (tt, [])).1.1
refresh-Allowed_example =
    refresh-Allowed (roles_controller (ok (some_role ∷ []))) tt tt (some_secret ∷ [])
      (some_role ∷ []) some_lists distinct_role

some_reference-References : References some_role.type_meta some_role.object_meta some_reference
some_reference-References = record { api_version = refl; kind = refl; uid = refl; name = refl }

role_owns :
    is_owned_reference some_role.type_meta some_role.object_meta some_secret.object_meta ≡ true
role_owns =
    (is_owned_reference-Any some_role.type_meta some_role.object_meta some_secret.object_meta).1
      (inl some_reference-References)

roles-AllOwned :
    AllOwned (roles_controller (ok (some_role ∷ []))) (some_secret ∷ []) (some_role ∷ [])
roles-AllOwned secret (inl e) = rw e (some_role, (inl refl), refl, role_owns)
roles-AllOwned secret (inr never) = absurd never

all-IsFresh :
    (secret : Secret)
    → Member secret (some_secret ∷ [])
    → IsFresh (roles_controller (ok (some_role ∷ []))) secret
unfolding expires_soon soon lookup_data lookup text_eq ◌+ℤ◌
all-IsFresh secret (inl e) = rw e (λ s. refl)
all-IsFresh secret (inr never) = absurd never

roles-AllSynced :
    AllSynced (roles_controller (ok (some_role ∷ []))) (some_secret ∷ []) (some_role ∷ [])
unfolding get_generation lookup_data lookup text_eq parse_int parse_uint parse_digits push_digit
    signed observed
roles-AllSynced role (inl e) = rw e (some_secret, (inl refl), refl, refl, refl)
roles-AllSynced role (inr never) = absurd never

refresh-idle_example :
    (s'' : Unit {0}) × (refresh_roles
        (with_roles_record (roles_controller (ok (some_role ∷ []))))
        (tt, [])
      ≡ (ok tt, (s'', [])))
refresh-idle_example =
    refresh-idle (roles_controller (ok (some_role ∷ []))) tt tt (some_secret ∷ []) (some_role ∷ [])
      some_lists distinct_role distinct_secret roles-AllOwned all-IsFresh roles-AllSynced

is_owned_reference-Any_example :
    (is_owned_reference some_role.type_meta some_role.object_meta some_secret.object_meta ≡ true)
    ↔ Any (References some_role.type_meta some_role.object_meta) some_secret.owner_references
is_owned_reference-Any_example =
    is_owned_reference-Any some_role.type_meta some_role.object_meta some_secret.object_meta

get_generation-with_generation_example :
    get_generation (some (with_generation (negsuc 6) some_data)) ≡ ok (negsuc 6)
get_generation-with_generation_example =
    get_generation-with_generation (negsuc 6) some_data (omega arith)

abbrev pub secrets_controller : SecretsController (Unit {0})
secrets_controller = record {
  client = some_cluster free_secret (ok []);
  codec = some_codec;
  interval = pos (10 * second);
  refresh_limit = pos 20;
  creds = some_creds;
  role_store = run (adds (codes "reader") (codes "kube-system") (codes "p") ∷ []);
  namespace = [];
}

refresh-Allowed_by_store_example :
    All
      (Allowed (free_secret ∷ []) secrets_controller.role_store)
      (refresh (with_record secrets_controller) (tt, [])).1.1
refresh-Allowed_by_store_example =
    refresh-Allowed_by_store secrets_controller tt tt (free_secret ∷ []) refl
      (run-StoreValid (adds (codes "reader") (codes "kube-system") (codes "p") ∷ []))
