-- ===== src/Kube/Recorded.antt =====
-- The cluster and the getter with a record of the calls that reach them, the latest first. What a
-- controller does over them is what it does, seen from outside.
use kube_aws_iam_controller.Base.Lists.{List, ◌∷◌}
use kube_aws_iam_controller.Base.Text.{Text}
use kube_aws_iam_controller.Base.Flow.{Call}
use kube_aws_iam_controller.Base.Flow.Keeps.{CallKeeps, EffectKeeps}
use kube_aws_iam_controller.Credentials.Types.{Duration, CredentialsGetter}
use kube_aws_iam_controller.Kube.Types.{Secret, AwsIamRole}
use kube_aws_iam_controller.Kube.Cluster.{Cluster, Event}

-- What is written, asked of AWS or told the user; reading is not recorded.
pub data Sent : Type 0 where
  updated created : Text → Secret → Sent
  deleted : Text → Text → Sent
  status_updated : Text → AwsIamRole → Sent
  event_recorded : AwsIamRole → Event → Sent
  asked : Text → Duration → Sent

abbrev pub World : Type 0 → Type 0
World S = S × List Sent

module _ {S : Type 0} where
  pub note : {A : Type 0} → Sent → Call S A → Call (World S) A
  note sent call w = let (r, s) = call w.0 in (r, (s, sent ∷ w.1))

  pub unrecorded : {A : Type 0} → Call S A → Call (World S) A
  unrecorded call w = let (r, s) = call w.0 in (r, (s, w.1))

  unfoldable pub recorded : Cluster S → Cluster (World S)
  unfolding note unrecorded
  recorded client = record {
    list_secrets = λ namespace labels. unrecorded (client.list_secrets namespace labels);
    list_aws_iam_roles = λ namespace. unrecorded (client.list_aws_iam_roles namespace);
    update_secret =
        λ namespace secret. note (updated namespace secret) (client.update_secret namespace secret);
    create_secret =
        λ namespace secret. note (created namespace secret) (client.create_secret namespace secret);
    delete_secret =
        λ namespace name. note (deleted namespace name) (client.delete_secret namespace name);
    update_status = λ namespace role.
        note (status_updated namespace role) (client.update_status namespace role);
    record_event =
        λ role event w. (client.record_event role event w.0, event_recorded role event ∷ w.1);
    now = λ w. let (t, s) = client.now w.0 in (t, (s, w.1));
  }

  unfoldable pub recorded_creds : CredentialsGetter S → CredentialsGetter (World S)
  unfolding note
  recorded_creds creds = record {
    get = λ role duration. note (asked role duration) (creds.get role duration);
  }

-- A property of the record, and that one more call keeps it.
abbrev pub OfLog : {S : Type 0} → (List Sent → Type 0) → S × List Sent → Type 0
OfLog P w = P w.1

abbrev pub Adds : (List Sent → Type 0) → Sent → Type 0
Adds P sent = (log : List Sent) → P log → P (sent ∷ log)

-- What a call has to be for the record to stay of the kind.
module _ {S : Type 0} {P : List Sent → Type 0} (client : Cluster S) where
  pub update_secret-keeps :
      (namespace : Text) (secret : Secret)
      → Adds P (updated namespace secret)
      → CallKeeps (OfLog P) ((recorded client).update_secret namespace secret)
  unfolding recorded
  update_secret-keeps namespace secret g = record { at = λ w h. g w.1 h }

  pub create_secret-keeps :
      (namespace : Text) (secret : Secret)
      → Adds P (created namespace secret)
      → CallKeeps (OfLog P) ((recorded client).create_secret namespace secret)
  unfolding recorded
  create_secret-keeps namespace secret g = record { at = λ w h. g w.1 h }

  pub delete_secret-keeps :
      (namespace name : Text)
      → Adds P (deleted namespace name)
      → CallKeeps (OfLog P) ((recorded client).delete_secret namespace name)
  unfolding recorded
  delete_secret-keeps namespace name g = record { at = λ w h. g w.1 h }

  pub update_status-keeps :
      (namespace : Text) (role : AwsIamRole)
      → Adds P (status_updated namespace role)
      → CallKeeps (OfLog P) ((recorded client).update_status namespace role)
  unfolding recorded
  update_status-keeps namespace role g = record { at = λ w h. g w.1 h }

  pub record_event-keeps :
      (role : AwsIamRole) (event : Event)
      → Adds P (event_recorded role event)
      → EffectKeeps (OfLog P) ((recorded client).record_event role event)
  unfolding recorded
  record_event-keeps role event g = record { at = λ w h. g w.1 h }

pub creds-keeps :
    {S : Type 0} {P : List Sent → Type 0} (creds : CredentialsGetter S) (role : Text) (d : Duration)
    → Adds P (asked role d)
    → CallKeeps (OfLog P) ((recorded_creds creds).get role d)
unfolding recorded_creds
creds-keeps creds role d g = record { at = λ w h. g w.1 h }
