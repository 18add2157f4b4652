-- ===== src/Kube/Types.antt =====
-- The Kubernetes objects that the controllers read and write (pkg/apis/zalando.org/v1/types.go and
-- the parts of the core objects that the controllers use).
use kube_aws_iam_controller.Base.Tests.{Option}
use kube_aws_iam_controller.Base.Lists.{List}
use kube_aws_iam_controller.Base.Int.{ℤ}
use kube_aws_iam_controller.Base.Text.{Text}
use kube_aws_iam_controller.Base.GoMap.{GoMap}
use kube_aws_iam_controller.Credentials.Types.{Time}

pub record TypeMeta : Type 0 where
  pub api_version : Text
  pub kind : Text

pub record OwnerReference : Type 0 where
  pub api_version : Text
  pub kind : Text
  pub name : Text
  pub uid : Text

pub record ObjectMeta : Type 0 where
  pub name : Text
  pub namespace : Text
  pub uid : Text
  pub resource_version : Text
  pub generation : ℤ
  pub labels : GoMap Text
  pub owner_references : List OwnerReference

abbrev pub SecretData : Type 0
SecretData = GoMap Text

-- A nil map is `none`.
pub record Secret : Type 0 where
  pub object_meta : ObjectMeta
  pub open object_meta use *
  pub data_map : Option SecretData

pub record AwsIamRoleSpec : Type 0 where
  pub role_reference : Text
  pub role_session_duration : ℤ

pub record AwsIamRoleStatus : Type 0 where
  pub observed_generation : Option ℤ
  pub role_arn : Text
  pub expiration : Option Time

pub record AwsIamRole : Type 0 where
  pub type_meta : TypeMeta
  pub object_meta : ObjectMeta
  pub open object_meta use *
  pub spec : AwsIamRoleSpec
  pub status : AwsIamRoleStatus
