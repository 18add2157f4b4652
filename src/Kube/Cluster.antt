-- ===== src/Kube/Cluster.antt =====
-- The interface of the API server, the event recorder and the clock, over the state `S` of the
-- world. None of them is part of the repository.
use kube_aws_iam_controller.Base.Lists.{List}
use kube_aws_iam_controller.Base.Text.{Text}
use kube_aws_iam_controller.Base.GoMap.{GoMap}
use kube_aws_iam_controller.Base.Flow.{Call}
use kube_aws_iam_controller.Credentials.Types.{Time}
use kube_aws_iam_controller.Kube.Types.{Secret, AwsIamRole}

pub data EventType : Type 0 where
  normal warning : EventType

-- The arguments of the formatted messages.
pub data Message : Type 0 where
  -- role and error
  credentials_error : Text → Text → Message
  -- ARN and expiry time
  credentials_until : Text → Time → Message
  -- namespace, name and error
  generation_error secret_error : Text → Text → Text → Message
  -- expiry text, namespace, name and error
  expiry_error : Text → Text → Text → Text → Message

pub record Event : Type 0 where
  pub event_type : EventType
  pub reason : Text
  pub message : Message

pub record Cluster (S : Type 0) : Type 0 where
  -- the secrets of a namespace that have all the labels
  pub list_secrets : Text → GoMap Text → Call S (List Secret)
  pub list_aws_iam_roles : Text → Call S (List AwsIamRole)
  pub update_secret : Text → Secret → Call S (Unit {0})
  pub create_secret : Text → Secret → Call S (Unit {0})
  pub delete_secret : Text → Text → Call S (Unit {0})
  pub update_status : Text → AwsIamRole → Call S (Unit {0})
  pub record_event : AwsIamRole → Event → S → S
  -- `time.Now().UTC()`
  pub now : S → Time × S
