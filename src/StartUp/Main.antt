-- ===== src/StartUp/Main.antt =====
-- `main` of main.go, from the parsed flags to the two controllers that it runs. The parser of the
-- flags is left out.
use kube_aws_iam_controller.Base.Tests.{◌≡◌, refl, true, ◌*◌, Option, none, some}
use kube_aws_iam_controller.Base.Lists.{List, [], ◌++◌}
use kube_aws_iam_controller.Base.Int.{pos}
use kube_aws_iam_controller.Base.Outcome.{Outcome, ok}
use kube_aws_iam_controller.Base.Text.{Text, codes, has_prefix, Lacks}
use kube_aws_iam_controller.Credentials.Types.{
  Duration, second, AssumeRoleInput, StsApi, CredentialsGetter,
}
use kube_aws_iam_controller.Credentials.BaseArn.{profile_arn, role_part}
use kube_aws_iam_controller.Credentials.Getter.{
  StsCredentialsGetter, new_sts_credentials_getter, as_credentials_getter,
}
use kube_aws_iam_controller.Credentials.Getter.Requests.{
  logged, with_log, OneRequest, get-OneRequest,
}
use kube_aws_iam_controller.Kube.Cluster.{Cluster}
use kube_aws_iam_controller.SecretFiles.{Codec}
use kube_aws_iam_controller.AwsIamRoleController.Renewal.{
  AwsIamRoleController, new_aws_iam_role_controller,
}
use kube_aws_iam_controller.SecretsController.Renewal.{SecretsController, new_secrets_controller}
use kube_aws_iam_controller.Clients.Types.{ClientGo, RestConfig, ◌>>=◌}
use kube_aws_iam_controller.Clients.{UnifiedClientset, new_for_config, configure_kube_config}
use kube_aws_iam_controller.StartUp.{Config, Setup, set_up, set_up-profile_arn}

abbrev pub default_client_go_timeout : Duration
default_client_go_timeout = pos (30 * second)

-- What `main` uses of the SDK, over its configurations `W`: the default configuration, what the
-- metadata service reports, the partition of an ARN, the client for STS, and the configuration with
-- the credentials of a role that is assumed.
pub record AwsSdk (W S : Type 0) : Type 0 where
  pub load_default_config : Outcome W
  pub instance_profile_arn : W → Outcome Text
  pub partition_of : Text → Outcome Text
  pub sts : W → StsApi S
  pub with_assumed_role : W → Text → W

pub record Controllers (S : Type 0) : Type 0 where
  pub secrets : SecretsController S
  pub aws_iam_roles : AwsIamRoleController S

-- `awsCfg.Credentials = creds`
abbrev assuming : {W : Type 0} → (W → Text → W) → W → Option Text → W
assuming with_assumed_role aws_cfg none = aws_cfg
assuming with_assumed_role aws_cfg (some role) = with_assumed_role aws_cfg role

abbrev pub creds_getter : {W S : Type 0} → AwsSdk W S → W → Setup → StsCredentialsGetter S
creds_getter sdk aws_cfg setup =
    new_sts_credentials_getter (sdk.sts (assuming sdk.with_assumed_role aws_cfg setup.assumed))
      setup.base_role_arn setup.base_role_arn_prefix

-- The two controllers share the client and the getter.
abbrev pub controllers :
    {S : Type 0} → Cluster S → Codec → Config → CredentialsGetter S → Controllers S
controllers client codec config creds = record {
  secrets =
      new_secrets_controller client codec config.namespace config.interval config.refresh_limit
        creds;
  aws_iam_roles =
      new_aws_iam_role_controller client codec config.interval config.refresh_limit creds
        config.namespace;
}

module _ {T R C H K D A W S : Type 0} (go : ClientGo T R C H K D A) (sdk : AwsSdk W S)
    (cluster_of : UnifiedClientset A D K → Cluster S) (codec : Codec) where
  unfoldable pub main : Config → Outcome (Controllers S)
  main config = do
    kube_config ← configure_kube_config go config.api_server default_client_go_timeout
    client ← new_for_config go kube_config
    aws_cfg ← sdk.load_default_config
    setup ← set_up config (sdk.instance_profile_arn aws_cfg) sdk.partition_of
    ok (
        controllers (cluster_of client) codec config
          (as_credentials_getter (creds_getter sdk aws_cfg setup)))

-- The SDK with a log of the requests that STS is sent.
abbrev pub logged_sdk : {W S : Type 0} → AwsSdk W S → AwsSdk W (S × List AssumeRoleInput)
logged_sdk sdk = record {
  load_default_config = sdk.load_default_config;
  instance_profile_arn = sdk.instance_profile_arn;
  partition_of = sdk.partition_of;
  sts = λ aws_cfg. logged (sdk.sts aws_cfg);
  with_assumed_role = sdk.with_assumed_role;
}

module _ {T R C H K D A W S : Type 0} (go : ClientGo T R C H K D A) (sdk : AwsSdk W S)
    (cluster_of : UnifiedClientset A D K → Cluster (S × List AssumeRoleInput)) (codec : Codec) where
  -- If the clients can be set up and the SDK loads its configuration, and the program runs, without a
  -- configured base ARN, on an instance with a profile of the account, where the parser finds the
  -- partition of the base ARN, then `main` comes to its two controllers, which share one getter. Its
  -- base ARN is that of the account's roles, and its prefix, which the base ARN has, is that ARN up to
  -- the account.
  -- Whatever role one of them asks credentials for, the getter sends STS either no request, and
  -- gives no credentials, or one: for an ARN with that prefix, with a
  -- session name of at most 64 bytes. Neither the partition nor the account may hold a slash
  -- or the letter i.
  pub main-OneRequest :
      (config : Config) (kube_config : RestConfig T R) (client : UnifiedClientset A D K)
      (aws_cfg : W) (partition account name : Text)
      → configure_kube_config go config.api_server default_client_go_timeout ≡ ok kube_config
      → new_for_config go kube_config ≡ ok client
      → sdk.load_default_config ≡ ok aws_cfg
      → sdk.instance_profile_arn aws_cfg ≡ ok (profile_arn partition account name)
      → config.base_role_arn ≡ []
      → Lacks b'/' partition
      → Lacks b'/' account
      → Lacks b'i' partition
      → Lacks b'i' account
      → sdk.partition_of (role_part partition account ++ codes "/") ≡ ok partition
      → (getter : StsCredentialsGetter S) × (main go (logged_sdk sdk) cluster_of codec config
          ≡ ok (
              controllers
                (cluster_of client)
                codec
                config
                (as_credentials_getter (with_log getter))))
        × (getter.base_role_arn ≡ role_part partition account ++ codes "/")
        × (getter.base_role_arn_prefix ≡ codes "arn:" ++ partition ++ codes ":iam::")
        × (has_prefix getter.base_role_arn getter.base_role_arn_prefix ≡ true)
        × ((role : Text) (d : Duration) (s : S) (log : List AssumeRoleInput)
            → let r = (as_credentials_getter (with_log getter)).get role d (s, log) in
              OneRequest getter role log r.0 r.1.1)
  unfolding main as_credentials_getter new_sts_credentials_getter
  main-OneRequest config kube_config client aws_cfg partition account name e e' loaded profile unset
        sp sa ip ia parsed =
      let (setup, made, same, prefix_same, based, _) =
        set_up-profile_arn config partition account name sdk.partition_of unset sp sa ip ia
          parsed in
      (
        creds_getter sdk aws_cfg setup,
        rw (e, e', loaded, profile, made) refl,
        same,
        prefix_same,
        based,
        λ role d s log. get-OneRequest (creds_getter sdk aws_cfg setup) role d s log based,
      )
