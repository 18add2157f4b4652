-- ===== src/AwsIamRoleController/Calls.antt =====
-- The calls that one round of the loops of awsiamrole_controller.go makes.
use kube_aws_iam_controller.Base.Lists.{List}
use kube_aws_iam_controller.Base.Int.{eqb_ℤ}
use kube_aws_iam_controller.Base.Text.{Text}
use kube_aws_iam_controller.Base.Flow.{done}
use kube_aws_iam_controller.Base.Flow.Keeps.{
  Keeps, CallKeeps, Keeps-done, Keeps-attempt, Keeps-effect, Keeps-bind, bind_from, Keeps-if,
  CallKeeps-pure, EffectKeeps-id,
}
use kube_aws_iam_controller.Credentials.Types.{Time}
use kube_aws_iam_controller.Kube.Types.{Secret, SecretData, AwsIamRole}
use kube_aws_iam_controller.Kube.Cluster.{Event}
use kube_aws_iam_controller.Kube.Recorded.{
  Sent, updated, created, deleted, status_updated, event_recorded, asked, recorded, recorded_creds,
  OfLog, update_secret-keeps, create_secret-keeps, delete_secret-keeps, update_status-keeps,
  record_event-keeps, creds-keeps, Adds, World,
}
use kube_aws_iam_controller.SecretFiles.{expires_soon, expire_key, lookup_data}
use kube_aws_iam_controller.SecretFiles.Expiry.{expires_soon-keeps}
use kube_aws_iam_controller.AwsIamRoleController.Renewal.{
  AwsIamRoleController, session_duration, renewed_secret, with_status, new_secret, observed,
  get_creds, fetch_creds, put_status, renew, refresh_secret, delete_orphan, update_outdated,
  observe, sync_existing, create_missing,
}

-- The controller over the recorded cluster.
abbrev pub with_record :
    {S : Type 0} → AwsIamRoleController S → AwsIamRoleController (S × List Sent)
with_record c = record {
  client = recorded c.client;
  codec = c.codec;
  interval = c.interval;
  refresh_limit = c.refresh_limit;
  creds = recorded_creds c.creds;
  namespace = c.namespace;
}

-- What a role allows: to be asked for, to be told of, and to have its status updated.
pub record RoleAllowed (P : List Sent → Type 0) (role : AwsIamRole) : Type 0 where
  pub ask : Adds P (asked role.spec.role_reference (session_duration role.spec))
  pub tell : (e : Event) → Adds P (event_recorded role e)
  pub observe_as :
      (role_arn : Text) (expiration : Time)
      → Adds P (status_updated role.namespace (with_status role role_arn expiration))

module _ {S : Type 0} (c : AwsIamRoleController S) {P : List Sent → Type 0} (role : AwsIamRole)
    (allowed : RoleAllowed P role) where
  get_creds-keeps :
      CallKeeps
        (OfLog P)
        (get_creds (with_record c) role.spec.role_reference (session_duration role.spec))
  unfolding get_creds
  get_creds-keeps = record { at = (creds-keeps c.creds _ _ allowed.ask).at }

  fetch_creds-Keeps : Keeps (OfLog P) (fetch_creds (with_record c) role)
  unfolding fetch_creds
  fetch_creds-Keeps =
      Keeps-attempt _ _ get_creds-keeps (λ e. record_event-keeps c.client role _ (allowed.tell _))

  put_status-Keeps :
      (role_arn : Text) (expiration : Time)
      → Keeps (OfLog P) (put_status (with_record c) role role_arn expiration)
  unfolding put_status
  put_status-Keeps role_arn expiration =
      Keeps-attempt _ _ (update_status-keeps c.client _ _ (allowed.observe_as _ _))
        (λ e. EffectKeeps-id)

  -- The rounds of the loops, if what they write to the secret is of the kind.
  renew-Keeps :
      (secret : Secret)
      → ((d : SecretData) → Adds P (updated secret.namespace (renewed_secret role secret d)))
      → Keeps (OfLog P) (renew (with_record c) role secret)
  unfolding renew
  renew-Keeps secret writes = Keeps-bind _ _ fetch_creds-Keeps λ got.
      Keeps-bind _ _
        (Keeps-attempt _ _ (update_secret-keeps c.client _ _ (writes got.1)) (λ e. EffectKeeps-id))
        λ _.
          Keeps-bind _ _ (Keeps-effect _ (record_event-keeps c.client role _ (allowed.tell _)))
            λ _. put_status-Keeps _ _

  pub refresh_secret-Keeps :
      (secret : Secret)
      → ((d : SecretData) → Adds P (updated secret.namespace (renewed_secret role secret d)))
      → Keeps (OfLog P) (refresh_secret (with_record c) role secret)
  unfolding refresh_secret
  refresh_secret-Keeps secret writes = record {
    at = λ w h.
        let expirary = lookup_data expire_key secret.data_map in
        let (due, w') = expires_soon c.codec (recorded c.client) c.refresh_limit expirary w in
        (Keeps-if due (renew (with_record c) role secret) (done tt) (λ _. renew-Keeps secret writes)
            (λ _. Keeps-done tt)).at
          w' (expires_soon-keeps c.client c.codec c.refresh_limit P expirary w h);
  }

  update_outdated-Keeps :
      (secret : Secret)
      → ((d : SecretData) → Adds P (updated secret.namespace (renewed_secret role secret d)))
      → Keeps (OfLog P) (update_outdated (with_record c) role secret)
  unfolding update_outdated
  update_outdated-Keeps secret writes = Keeps-bind _ _ fetch_creds-Keeps λ got.
      Keeps-bind _ _
        (Keeps-attempt _ _ (update_secret-keeps c.client _ _ (writes got.1))
          (λ e. record_event-keeps c.client role _ (allowed.tell _)))
        λ _.
          Keeps-bind _ _ (Keeps-effect _ (record_event-keeps c.client role _ (allowed.tell _)))
            λ _. Keeps-done _

  observe-Keeps : (secret : Secret) → Keeps (OfLog P) (observe (with_record c) role secret)
  unfolding observe
  observe-Keeps secret =
      Keeps-bind _ _
        (Keeps-attempt _ _ (CallKeeps-pure _)
          (λ e. record_event-keeps c.client role _ (allowed.tell _)))
        λ expiration. put_status-Keeps _ _

  pub sync_existing-Keeps :
      (secret : Secret)
      → ((d : SecretData) → Adds P (updated secret.namespace (renewed_secret role secret d)))
      → Keeps (OfLog P) (sync_existing (with_record c) role secret)
  unfolding sync_existing
  sync_existing-Keeps secret writes =
      Keeps-bind _ _
        (Keeps-attempt _ _ (CallKeeps-pure _)
          (λ e. record_event-keeps c.client role _ (allowed.tell _)))
        λ generation.
          Keeps-bind _ _
            (Keeps-if (eqb_ℤ role.generation generation) (done secret) _ (λ _. Keeps-done secret)
              (λ _. update_outdated-Keeps secret writes))
            λ current.
              Keeps-if (observed role) (done tt) _ (λ _. Keeps-done tt) (λ _. observe-Keeps current)

  -- What holds once the credentials are asked for holds at the end of the round.
  pub create_missing_from :
      ((d : SecretData) → Adds P (created role.namespace (new_secret role d)))
      → (w : World S) → OfLog P (fetch_creds (with_record c) role w).1
      → OfLog P (create_missing (with_record c) role w).1
  unfolding create_missing
  create_missing_from writes w h = bind_from {P = OfLog P} _ _ w h λ got.
      Keeps-bind _ _
        (Keeps-attempt _ _ (create_secret-keeps c.client _ _ (writes got.1))
          (λ e. record_event-keeps c.client role _ (allowed.tell _)))
        λ _.
          Keeps-bind _ _ (Keeps-effect _ (record_event-keeps c.client role _ (allowed.tell _)))
            λ _. put_status-Keeps _ _

  pub create_missing-Keeps :
      ((d : SecretData) → Adds P (created role.namespace (new_secret role d)))
      → Keeps (OfLog P) (create_missing (with_record c) role)
  create_missing-Keeps writes = record {
    at = λ w h. create_missing_from writes w (fetch_creds-Keeps.at w h);
  }

pub delete_orphan-Keeps :
    {S : Type 0} (c : AwsIamRoleController S) {P : List Sent → Type 0} (secret : Secret)
    → Adds P (deleted secret.namespace secret.name)
    → Keeps (OfLog P) (delete_orphan (with_record c) secret)
unfolding delete_orphan
delete_orphan-Keeps c secret g =
    Keeps-attempt _ _ (delete_secret-keeps c.client secret.namespace secret.name g)
      (λ e. EffectKeeps-id)
