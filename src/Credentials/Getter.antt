-- ===== src/Credentials/Getter.antt =====
-- STSCredentialsGetter of credentials_getter.go.
pub mod Requests
use kube_aws_iam_controller.Base.Tests.{Option, none, some, if◌then◌else◌}
use kube_aws_iam_controller.Base.Lists.{◌++◌}
use kube_aws_iam_controller.Base.Outcome.{Outcome, ok, err, panic}
use kube_aws_iam_controller.Base.Text.{Text, has_prefix}
use kube_aws_iam_controller.Credentials.Types.{
  Duration, Credentials, CredentialsGetter, StsCredentials, StsApi, duration_seconds,
}
use kube_aws_iam_controller.Credentials.SessionName.{normalize_role_arn}

pub record StsCredentialsGetter (S : Type 0) : Type 0 where
  pub svc : StsApi S
  pub base_role_arn : Text
  pub base_role_arn_prefix : Text

module _ {S : Type 0} where
  unfoldable pub new_sts_credentials_getter : StsApi S → Text → Text → StsCredentialsGetter S
  new_sts_credentials_getter svc base_role_arn base_role_arn_prefix = record {
    svc = svc;
    base_role_arn = base_role_arn;
    base_role_arn_prefix = base_role_arn_prefix;
  }

  -- A role is a whole ARN, or a name behind the base ARN.
  unfoldable pub role_arn_of : StsCredentialsGetter S → Text → Text
  role_arn_of c role =
      if has_prefix role c.base_role_arn_prefix then role else c.base_role_arn ++ role

  -- What the getter makes of the answer of STS; an answer without credentials is a nil pointer.
  unfoldable pub credentials_of :
      StsApi S → Text → Outcome (Option StsCredentials) → Outcome Credentials
  credentials_of svc role_arn (ok none) = panic
  credentials_of svc role_arn (ok (some c)) = ok (record {
    role_arn = role_arn;
    access_key_id = svc.to_string c.access_key_id;
    secret_access_key = svc.to_string c.secret_access_key;
    session_token = svc.to_string c.session_token;
    expiration = svc.to_time c.expiration;
  })
  credentials_of svc role_arn (err e) = err e
  credentials_of svc role_arn panic = panic

  -- The request, once the session has a name, and the answer to it.
  unfoldable pub assume :
      StsCredentialsGetter S → Text → Duration → Outcome Text → S → Outcome Credentials × S
  assume c role_arn session_duration (ok role_session_name) s =
      let (resp, s') =
        c.svc.assume_role
          (record {
            role_arn = role_arn;
            role_session_name = role_session_name;
            duration_seconds = duration_seconds c.svc.inexact_seconds session_duration;
          })
          s in
      (credentials_of c.svc role_arn resp, s')
  assume c role_arn session_duration (err e) s = (err e, s)
  assume c role_arn session_duration panic s = (panic, s)

  unfoldable pub get : StsCredentialsGetter S → Text → Duration → S → Outcome Credentials × S
  unfolding assume
  get c role session_duration s =
      let role_arn = role_arn_of c role in
      assume c role_arn session_duration (normalize_role_arn role_arn c.base_role_arn_prefix) s

  -- The getter behind the interface of the controllers.
  unfoldable pub as_credentials_getter : StsCredentialsGetter S → CredentialsGetter S
  as_credentials_getter c = record { get = get c }
