-- ===== src/SecretsController/Renewal.antt =====
-- What `refresh` of secrets_controller.go does for one secret or one namespace. An error that is
-- only logged changes nothing; the log is not modelled.
use kube_aws_iam_controller.Base.Tests.{◌*◌, Option, some, Bool, true, false, if◌then◌else◌}
use kube_aws_iam_controller.Base.Lists.{[], ◌∷◌, ◌++◌}
use kube_aws_iam_controller.Base.Int.{pos}
use kube_aws_iam_controller.Base.Outcome.{Outcome, ok, err, panic}
use kube_aws_iam_controller.Base.Text.{Text, codes, trim_prefix}
use kube_aws_iam_controller.Base.GoMap.{GoMap}
use kube_aws_iam_controller.Base.Flow.{Call, Step, done, attempt, ◌>>=◌, ◌>>◌}
use kube_aws_iam_controller.Credentials.Types.{Duration, second, Credentials, CredentialsGetter}
use kube_aws_iam_controller.Kube.Types.{Secret, SecretData}
use kube_aws_iam_controller.Kube.Cluster.{Cluster}
use kube_aws_iam_controller.RoleStore.{RoleStore, new_role_store}
use kube_aws_iam_controller.SecretFiles.{
  Codec, heritage_label_key, aws_iam_controller_label_value, expire_key, process_credentials,
  credentials_files, expires_soon, lookup_data,
}

abbrev pub secret_prefix : Text
secret_prefix = codes "aws-iam-"

abbrev pub owner_labels : GoMap Text
owner_labels = (heritage_label_key, aws_iam_controller_label_value) ∷ []

pub record SecretsController (S : Type 0) : Type 0 where
  pub client : Cluster S
  pub codec : Codec
  pub interval : Duration
  pub refresh_limit : Duration
  pub creds : CredentialsGetter S
  pub role_store : RoleStore
  pub namespace : Text

unfoldable pub new_secrets_controller :
    {S : Type 0}
    → Cluster S
    → Codec
    → Text
    → Duration
    → Duration
    → CredentialsGetter S
    → SecretsController S
new_secrets_controller client codec namespace interval refresh_limit creds = record {
  client = client;
  codec = codec;
  interval = interval;
  refresh_limit = refresh_limit;
  creds = creds;
  role_store = new_role_store;
  namespace = namespace;
}

-- `3600*time.Second`
abbrev pub session_duration : Duration
session_duration = pos (3600 * second)

-- The role that the name of a secret stands for.
unfoldable pub role_of : Secret → Text
role_of secret = trim_prefix secret.name secret_prefix

-- `len(secret.OwnerReferences) > 0`
unfoldable pub has_owner : Secret → Bool
has_owner secret = elim secret.owner_references [ [] ↦ false | ref ∷ refs ↦ true ]

unfoldable pub with_data : Secret → SecretData → Secret
with_data secret secret_data = record secret { data_map = some secret_data }

unfoldable pub new_secret : Text → Text → SecretData → Secret
new_secret role ns creds = record {
  object_meta = record {
    name = secret_prefix ++ role;
    namespace = ns;
    uid = [];
    resource_version = [];
    generation = pos 0;
    labels = owner_labels;
    owner_references = [];
  };
  data_map = some creds;
}

module _ {S : Type 0} (c : SecretsController S) where
  with_files : Credentials → Outcome Text → Outcome SecretData
  with_files creds (ok process_creds_data) = ok (credentials_files c.codec creds process_creds_data)
  with_files creds (err e) = err e
  with_files creds panic = panic

  secret_data_of : Outcome Credentials → Outcome SecretData
  unfolding with_files
  secret_data_of (ok creds) = with_files creds (c.codec.marshal (process_credentials creds))
  secret_data_of (err e) = err e
  secret_data_of panic = panic

  unfoldable pub get_creds : Text → Call S SecretData
  unfolding secret_data_of
  get_creds role s = let (r, s') = c.creds.get role session_duration s in (secret_data_of r, s')

  unfoldable pub delete_unused : Secret → Step S (Unit {0})
  delete_unused secret = attempt (c.client.delete_secret secret.namespace secret.name) (λ e s. s)

  -- `if refreshCreds { … }`: the data that the secret has afterwards.
  unfoldable pub renew : Secret → Step S (Option SecretData)
  renew secret = do
    secret_data ← attempt (get_creds (role_of secret)) (λ e s. s)
    attempt (c.client.update_secret secret.namespace (with_data secret secret_data)) (λ e s. s)
    done (some secret_data)

  -- The rest of a round of the first loop, for a secret whose role is in use.
  unfoldable pub refresh_secret : Secret → Step S (Option SecretData)
  refresh_secret secret s =
      let expirary = lookup_data expire_key secret.data_map in
      let (refresh_creds, s') = expires_soon c.codec c.client c.refresh_limit expirary s in
      (if refresh_creds then renew secret else done secret.data_map) s'

  unfoldable pub create_secret : Text → Text → SecretData → Step S (Unit {0})
  create_secret role ns creds =
      attempt (c.client.create_secret ns (new_secret role ns creds)) (λ e s. s)
