-- ===== src/Credentials/Getter/Requests.antt =====
-- The requests that the getter sends to STS, and what it gives back.
use kube_aws_iam_controller.Base.Tests.{
  ◌≤◌, ◌≡◌, refl, true, Option, none, some, arith, inl, inr, ◌⊎◌,
}
use kube_aws_iam_controller.Base.Lists.{List, ◌∷◌, length}
use kube_aws_iam_controller.Base.Outcome.{Outcome, ok, err, panic}
use kube_aws_iam_controller.Base.Text.{Text, has_prefix, has_prefix-append_right}
use kube_aws_iam_controller.Credentials.Types.{
  Duration, Credentials, AssumeRoleInput, StsCredentials, StsApi,
}
use kube_aws_iam_controller.Credentials.SessionName.{normalize_role_arn, role_session_name_max_size}
use kube_aws_iam_controller.Credentials.SessionName.Bounds.{length-normalize_role_arn}
use kube_aws_iam_controller.Credentials.Getter.{
  StsCredentialsGetter, role_arn_of, credentials_of, assume, get,
}

-- STS with a log of the requests that it was sent, the latest first.
unfoldable pub logged : {S : Type 0} → StsApi S → StsApi (S × List AssumeRoleInput)
logged svc = record {
  assume_role =
      λ input st. let (resp, s') = svc.assume_role input st.0 in (resp, (s', input ∷ st.1));
  to_string = svc.to_string;
  to_time = svc.to_time;
  inexact_seconds = svc.inexact_seconds;
}

abbrev pub with_log :
    {S : Type 0} → StsCredentialsGetter S → StsCredentialsGetter (S × List AssumeRoleInput)
with_log c = record {
  svc = logged c.svc;
  base_role_arn = c.base_role_arn;
  base_role_arn_prefix = c.base_role_arn_prefix;
}

-- A request that STS can accept: a role with the prefix of the installation and a session name
-- of at most 64 bytes.
abbrev pub IsAcceptable : Text → AssumeRoleInput → Type 0
IsAcceptable prefix input =
    (has_prefix input.role_arn prefix ≡ true)
    × (length input.role_session_name ≤ role_session_name_max_size)

has_prefix-role_arn_of :
    {S : Type 0} (c : StsCredentialsGetter S) (role : Text)
    → has_prefix c.base_role_arn c.base_role_arn_prefix ≡ true
    → has_prefix (role_arn_of c role) c.base_role_arn_prefix ≡ true
unfolding role_arn_of
has_prefix-role_arn_of c role based =
    ground (arith, has_prefix-append_right c.base_role_arn role c.base_role_arn_prefix)

-- The role in the credentials, if there are any, is the one that was asked for.
abbrev pub IsFor : Text → Outcome Credentials → Type 0
IsFor role_arn (ok creds) = creds.role_arn ≡ role_arn
IsFor role_arn _ = Unit

-- No credentials were given.
abbrev pub Fails : Outcome Credentials → Type 0
Fails (ok creds) = ⊥
Fails _ = Unit

credentials_of-IsFor :
    {S : Type 0} (svc : StsApi S) (role_arn : Text) (resp : Outcome (Option StsCredentials))
    → IsFor role_arn (credentials_of svc role_arn resp)
unfolding credentials_of
credentials_of-IsFor svc role_arn (ok none) = tt
credentials_of-IsFor svc role_arn (ok (some c)) = refl
credentials_of-IsFor svc role_arn (err e) = tt
credentials_of-IsFor svc role_arn panic = tt

-- One call of `Get`: what it gives, and the log after it.
abbrev pub OneRequest :
    {S : Type 0}
    → StsCredentialsGetter S
    → Text
    → List AssumeRoleInput
    → Outcome Credentials
    → List AssumeRoleInput
    → Type 0
OneRequest c role log result log' =
    (Fails result × (log' ≡ log))
    ⊎ ((input : AssumeRoleInput) × (log' ≡ input ∷ log)
        × IsAcceptable c.base_role_arn_prefix input
        × (input.role_arn ≡ role_arn_of c role)
        × IsFor input.role_arn result)

assume-OneRequest :
    {S : Type 0} (c : StsCredentialsGetter S) (role : Text) (d : Duration) (name : Outcome Text)
    (s : S) (log : List AssumeRoleInput)
    → has_prefix c.base_role_arn c.base_role_arn_prefix ≡ true
    → normalize_role_arn (role_arn_of c role) c.base_role_arn_prefix ≡ name
    → let r = assume (with_log c) (role_arn_of c role) d name (s, log) in
      OneRequest c role log r.0 r.1.1
unfolding assume logged
assume-OneRequest c role d (ok name) s log based e = inr (
  _,
  refl,
  (
    has_prefix-role_arn_of c role based,
    length-normalize_role_arn (role_arn_of c role) c.base_role_arn_prefix name e,
  ),
  refl,
  credentials_of-IsFor (logged c.svc) (role_arn_of c role) _,
)
assume-OneRequest c role d (err e') s log based e = inl (tt, refl)
assume-OneRequest c role d panic s log based e = inl (tt, refl)

-- If the base ARN has the prefix of the installation, then a call of `Get` sends either no request,
-- and gives no credentials, or one: for the ARN of the role, which has the prefix, with a session
-- name of at most 64 bytes. Credentials that it gives are for that ARN.
pub get-OneRequest :
    {S : Type 0} (c : StsCredentialsGetter S) (role : Text) (d : Duration) (s : S)
    (log : List AssumeRoleInput)
    → has_prefix c.base_role_arn c.base_role_arn_prefix ≡ true
    → let r = get (with_log c) role d (s, log) in OneRequest c role log r.0 r.1.1
unfolding get role_arn_of
get-OneRequest c role d s log based =
    let name = normalize_role_arn (role_arn_of c role) c.base_role_arn_prefix in
    assume-OneRequest c role d name s log based refl
