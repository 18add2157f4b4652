-- ===== src/Credentials/Types.antt =====
-- The data that the credentials getter exchanges: its interface, the request to STS, the answer.
use kube_aws_iam_controller.Base.Tests.{
  ℕ, suc, ◌^◌, ◌/◌, ◌%◌, ◌&&◌, Option, ltb, leb, ◌==◌, if◌then◌else◌, ◌-◌,
}
use kube_aws_iam_controller.Base.Int.{ℤ, pos, negsuc}
use kube_aws_iam_controller.Base.Outcome.{Outcome}
use kube_aws_iam_controller.Base.Text.{Text}

-- A `time.Time` in UTC, in nanoseconds since the Unix epoch.
abbrev pub Time : Type 0
Time = ℤ

-- A `time.Duration`, in nanoseconds.
abbrev pub Duration : Type 0
Duration = ℤ

-- `time.Second`.
abbrev pub second : ℕ
second = 10 ^ 9

pub record Credentials : Type 0 where
  pub role_arn : Text
  pub access_key_id : Text
  pub secret_access_key : Text
  pub session_token : Text
  pub expiration : Time

-- The interface `CredentialsGetter`, over the state `S` of the world.
pub record CredentialsGetter (S : Type 0) : Type 0 where
  pub get : Text → Duration → S → Outcome Credentials × S

pub record AssumeRoleInput : Type 0 where
  pub role_arn : Text
  pub role_session_name : Text
  pub duration_seconds : ℤ

-- Pointers of the SDK are options.
pub record StsCredentials : Type 0 where
  pub access_key_id : Option Text
  pub secret_access_key : Option Text
  pub session_token : Option Text
  pub expiration : Option Time

-- `stsAPI`, and the helpers of the SDK that read its pointers; `none` is an answer with no
-- credentials in it.
pub record StsApi (S : Type 0) : Type 0 where
  pub assume_role : AssumeRoleInput → S → Outcome (Option StsCredentials) × S
  pub to_string : Option Text → Text
  pub to_time : Option Time → Time
  -- `int32(d.Seconds())` where Go leaves the result to the implementation or to rounding.
  pub inexact_seconds : Duration → ℤ

-- `int32(sessionDuration.Seconds())`: exact for whole seconds in the range of `int32`.
unfoldable pub duration_seconds : (Duration → ℤ) → Duration → ℤ
duration_seconds inexact (pos d) =
    if d % second == 0 && ltb (d / second) (2 ^ 31) then pos (d / second) else inexact (pos d)
duration_seconds inexact (negsuc d) =
    if suc d % second == 0 && leb (suc d / second) (2 ^ 31)
    then negsuc (suc d / second - 1)
    else inexact (negsuc d)
