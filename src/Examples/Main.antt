-- ===== src/Examples/Main.antt =====
-- The theorem on main on a node of the cluster.
use kube_aws_iam_controller.Base.Tests.{◌≡◌, refl, true}
use kube_aws_iam_controller.Base.Lists.{List, [], ◌++◌}
use kube_aws_iam_controller.Base.Outcome.{ok}
use kube_aws_iam_controller.Base.Text.{Text, codes, text_eq, has_prefix}
use kube_aws_iam_controller.Credentials.Types.{Duration, AssumeRoleInput}
use kube_aws_iam_controller.Credentials.BaseArn.{profile_arn, role_part}
use kube_aws_iam_controller.Credentials.Getter.{StsCredentialsGetter, as_credentials_getter}
use kube_aws_iam_controller.Credentials.Getter.Requests.{with_log, OneRequest}
use kube_aws_iam_controller.Kube.Cluster.{Cluster}
use kube_aws_iam_controller.Clients.{UnifiedClientset, new_for_config}
use kube_aws_iam_controller.Clients.Versioned
use kube_aws_iam_controller.Clients.Versioned.{with_rate_limiter, wants_limiter}
use kube_aws_iam_controller.Clients.Zalando
use kube_aws_iam_controller.Clients.Types.{with_user_agent}
use kube_aws_iam_controller.StartUp.Main.{AwsSdk, controllers, main, logged_sdk, main-OneRequest}
use kube_aws_iam_controller.Examples.{some_sts}
use kube_aws_iam_controller.Examples.Controllers.{some_cluster, free_secret, some_codec}
use kube_aws_iam_controller.Examples.Clients.{some_client_go, pod_client_config, pod_configured}
use kube_aws_iam_controller.Examples.Rounds.{flags, aws-Lacks, number-Lacks}

abbrev some_sdk : AwsSdk (Unit {0}) (Unit {0})
some_sdk = record {
  load_default_config = ok tt;
  instance_profile_arn = λ cfg. ok (profile_arn (codes "aws") (codes "0123") (codes "node"));
  partition_of = λ arn. ok (codes "aws");
  sts = λ cfg. some_sts;
  with_assumed_role = λ cfg role. cfg;
}

abbrev some_clientset : UnifiedClientset Text Text Text
some_clientset = record {
  kubernetes = pod_client_config.host;
  aws_iam_role = record {
    discovery_client = pod_client_config.host;
    zalando_v1 = record { rest_client = pod_client_config.host };
  };
}

clients_made : new_for_config some_client_go pod_client_config ≡ ok some_clientset
unfolding new_for_config Versioned.new_for_config Versioned.new_for_config_and_client
    Zalando.new_for_config_and_client with_rate_limiter wants_limiter with_user_agent text_eq
    Zalando.set_config_defaults
clients_made = refl

abbrev cluster_of : UnifiedClientset Text Text Text → Cluster (Unit {0} × List AssumeRoleInput)
cluster_of client = some_cluster free_secret (ok [])

main-OneRequest_example :
    (getter : StsCredentialsGetter (Unit {0})) × (main some_client_go
        (logged_sdk some_sdk)
        cluster_of
        some_codec
        flags
      ≡ ok (
          controllers
            (cluster_of some_clientset)
            some_codec
            flags
            (as_credentials_getter (with_log getter))))
    × (getter.base_role_arn ≡ role_part (codes "aws") (codes "0123") ++ codes "/")
    × (getter.base_role_arn_prefix ≡ codes "arn:" ++ codes "aws" ++ codes ":iam::")
    × (has_prefix getter.base_role_arn getter.base_role_arn_prefix ≡ true)
    × ((role : Text) (d : Duration) (s : Unit {0}) (log : List AssumeRoleInput)
        → let r = (as_credentials_getter (with_log getter)).get role d (s, log) in
          OneRequest getter role log r.0 r.1.1)
main-OneRequest_example =
    main-OneRequest some_client_go some_sdk cluster_of some_codec flags pod_client_config
      some_clientset tt (codes "aws") (codes "0123") (codes "node") pod_configured clients_made refl
      refl refl aws-Lacks.0 number-Lacks.0 aws-Lacks.1 number-Lacks.1 refl
