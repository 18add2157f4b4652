-- ===== src/AwsIamRoleController/Renewal.antt =====
-- What `refresh` of awsiamrole_controller.go does for one secret or one AWSIAMRole. An error that
-- is only logged changes nothing; the log is not modelled.
use kube_aws_iam_controller.Base.Tests.{suc, ◌*◌, none, some, Bool, false, if◌then◌else◌}
use kube_aws_iam_controller.Base.Lists.{[], ◌∷◌}
use kube_aws_iam_controller.Base.Int.{ℤ, pos, eqb_ℤ, wrap_int64}
use kube_aws_iam_controller.Base.Outcome.{Outcome, ok, err, panic}
use kube_aws_iam_controller.Base.Text.{Text, codes}
use kube_aws_iam_controller.Base.GoMap.{GoMap}
use kube_aws_iam_controller.Base.Flow.{Call, Step, done, attempt, effect, ◌>>=◌, ◌>>◌}
use kube_aws_iam_controller.Credentials.Types.{
  Time, Duration, second, Credentials, CredentialsGetter,
}
use kube_aws_iam_controller.Kube.Types.{Secret, SecretData, AwsIamRole, AwsIamRoleSpec}
use kube_aws_iam_controller.Kube.Cluster.{
  Cluster, Event, EventType, normal, warning, Message, credentials_error, credentials_until,
  generation_error, secret_error, expiry_error,
}
use kube_aws_iam_controller.SecretFiles.{
  Codec, heritage_label_key, aws_iam_controller_label_value, role_arn_key, expire_key,
  process_credentials, credentials_files, expires_soon, lookup_data, data_at, merge_labels,
  get_generation, with_generation,
}

abbrev pub aws_iam_role_owner_labels : GoMap Text
aws_iam_role_owner_labels =
    (heritage_label_key, aws_iam_controller_label_value) ∷ (codes "type", codes "awsiamrole") ∷ []

pub record AwsIamRoleController (S : Type 0) : Type 0 where
  pub client : Cluster S
  pub codec : Codec
  pub interval : Duration
  pub refresh_limit : Duration
  pub creds : CredentialsGetter S
  pub namespace : Text

-- The recorder that the source makes from the client is part of `Cluster`.
unfoldable pub new_aws_iam_role_controller :
    {S : Type 0}
    → Cluster S
    → Codec
    → Duration
    → Duration
    → CredentialsGetter S
    → Text
    → AwsIamRoleController S
new_aws_iam_role_controller client codec interval refresh_limit creds namespace = record {
  client = client;
  codec = codec;
  interval = interval;
  refresh_limit = refresh_limit;
  creds = creds;
  namespace = namespace;
}

-- `time.Duration(d) * time.Second` for a positive `d`, an hour otherwise.
unfoldable pub duration_of : ℤ → Duration
duration_of (pos (suc n)) = wrap_int64 (suc n * second)
duration_of d = pos (3600 * second)

unfoldable pub session_duration : AwsIamRoleSpec → Duration
session_duration spec = duration_of spec.role_session_duration

abbrev pub event : EventType → Text → Message → Event
event event_type reason message = record {
  event_type = event_type;
  reason = reason;
  message = message;
}

-- The secret with new credentials, the labels and the generation of its role.
unfoldable pub renewed_secret : AwsIamRole → Secret → SecretData → Secret
renewed_secret role secret secret_data = record secret {
  object_meta = record secret.object_meta {
    labels = merge_labels role.labels aws_iam_role_owner_labels;
  };
  data_map = some (with_generation role.generation secret_data);
}

-- The role with the status that says what its secret holds.
unfoldable pub with_status : AwsIamRole → Text → Time → AwsIamRole
with_status role role_arn expiration = record role {
  status = record {
    observed_generation = some role.generation;
    role_arn = role_arn;
    expiration = some expiration;
  };
}

unfoldable pub new_secret : AwsIamRole → SecretData → Secret
new_secret role secret_data = record {
  object_meta = record {
    name = role.name;
    namespace = role.namespace;
    uid = [];
    resource_version = [];
    generation = pos 0;
    labels = merge_labels role.labels aws_iam_role_owner_labels;
    owner_references =
        (record {
          api_version = role.type_meta.api_version;
          kind = role.type_meta.kind;
          name = role.name;
          uid = role.uid;
        })
        ∷ [];
  };
  data_map = some (with_generation role.generation secret_data);
}

-- The status says what generation it is of, and that is the generation of the role.
unfoldable pub observed : AwsIamRole → Bool
observed role = elim role.status.observed_generation [
  | none ↦ false
  | some generation ↦ eqb_ℤ generation role.generation
]

module _ {S : Type 0} (c : AwsIamRoleController S) where
  unfoldable pub with_files : Credentials → Outcome Text → Outcome (Credentials × SecretData)
  with_files creds (ok process_creds_data) =
      ok
        (creds, (role_arn_key, creds.role_arn) ∷ credentials_files c.codec creds process_creds_data)
  with_files creds (err e) = err e
  with_files creds panic = panic

  unfoldable pub secret_data_of : Outcome Credentials → Outcome (Credentials × SecretData)
  unfolding with_files
  secret_data_of (ok creds) = with_files creds (c.codec.marshal (process_credentials creds))
  secret_data_of (err e) = err e
  secret_data_of panic = panic

  unfoldable pub get_creds : Text → Duration → Call S (Credentials × SecretData)
  unfolding secret_data_of
  get_creds role session_duration s =
      let (r, s') = c.creds.get role session_duration s in (secret_data_of r, s')

  -- Credentials for the role, or an event and the next round.
  unfoldable pub fetch_creds : AwsIamRole → Step S (Credentials × SecretData)
  fetch_creds role = attempt (get_creds role.spec.role_reference (session_duration role.spec)) (λ e.
      c.client.record_event role (
        event warning (codes "GetCredentialsFailed")
          (credentials_error role.spec.role_reference e)))

  unfoldable pub put_status : AwsIamRole → Text → Time → Step S Unit
  put_status role role_arn expiration =
      attempt (c.client.update_status role.namespace (with_status role role_arn expiration))
        (λ e s. s)

  -- `if refreshCreds { … }` of the first loop.
  unfoldable pub renew : AwsIamRole → Secret → Step S Unit
  renew role secret = do
    (creds, secret_data) ← fetch_creds role
    attempt (c.client.update_secret secret.namespace (renewed_secret role secret secret_data))
        (λ e s. s)
    effect (
        c.client.record_event role (
          event normal (codes "UpdateCredentials")
            (credentials_until creds.role_arn creds.expiration)))
    put_status role creds.role_arn creds.expiration

  -- A round of the first loop for a secret that its role owns.
  unfoldable pub refresh_secret : AwsIamRole → Secret → Step S Unit
  refresh_secret role secret s =
      let (refresh_creds, s') =
        expires_soon c.codec c.client c.refresh_limit (lookup_data expire_key secret.data_map) s in
      (if refresh_creds then renew role secret else done tt) s'

  unfoldable pub delete_orphan : Secret → Step S Unit
  delete_orphan secret = attempt (c.client.delete_secret secret.namespace secret.name) (λ e s. s)

  -- A secret of another generation of its role gets new credentials.
  unfoldable pub update_outdated : AwsIamRole → Secret → Step S Secret
  update_outdated role secret = do
    (creds, secret_data) ← fetch_creds role
    let updated = renewed_secret role secret secret_data
    attempt (c.client.update_secret secret.namespace updated) (λ e.
        c.client.record_event role (
          event warning (codes "UpdateSecretFailed") (secret_error secret.namespace secret.name e)))
    effect (
        c.client.record_event role (
          event normal (codes "UpdateCredentials")
            (credentials_until creds.role_arn creds.expiration)))
    done updated

  -- The status of the role, from what its secret says.
  unfoldable pub observe : AwsIamRole → Secret → Step S Unit
  observe role secret = do
    let expirary = data_at expire_key secret.data_map
    expiration ←
        attempt (λ s. (c.codec.parse_time expirary, s))
          (λ e. c.client.record_event role (
            event warning (codes "ReadSecretFailed")
              (expiry_error expirary secret.namespace secret.name e)))
    put_status role (data_at role_arn_key secret.data_map) expiration

  -- A round of the last loop for a role whose secret was listed.
  unfoldable pub sync_existing : AwsIamRole → Secret → Step S Unit
  sync_existing role secret = do
    generation ←
        attempt (λ s. (get_generation secret.data_map, s))
          (λ e. c.client.record_event role (
            event warning (codes "ReadSecretFailed")
              (generation_error secret.namespace secret.name e)))
    current ← if eqb_ℤ role.generation generation then done secret else update_outdated role secret
    if observed role then done tt else observe role current

  -- A round of the last loop for a role without a secret.
  unfoldable pub create_missing : AwsIamRole → Step S Unit
  create_missing role = do
    (creds, secret_data) ← fetch_creds role
    attempt (c.client.create_secret role.namespace (new_secret role secret_data)) (λ e.
        c.client.record_event role
          (event warning (codes "CreateSecretFailed") (secret_error role.namespace role.name e)))
    effect (
        c.client.record_event role (
          event normal (codes "CreateCredentials")
            (credentials_until creds.role_arn creds.expiration)))
    put_status role creds.role_arn creds.expiration
