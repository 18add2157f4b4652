-- ===== src/Examples/Clients.antt =====
-- The theorem on the set-up of the clients, in a cluster.
use kube_aws_iam_controller.Base.Tests.{◌≡◌, refl, none, some, ◌*◌}
use kube_aws_iam_controller.Base.Lists.{[]}
use kube_aws_iam_controller.Base.Int.{pos}
use kube_aws_iam_controller.Base.Outcome.{ok}
use kube_aws_iam_controller.Base.Text.{Text, codes}
use kube_aws_iam_controller.Credentials.Types.{second}
use kube_aws_iam_controller.Clients.Types.{RestConfig, ClientGo}
use kube_aws_iam_controller.Clients.{
  new_for_config, in_cluster, new_transport, configure_kube_config,
}
use kube_aws_iam_controller.Clients.Kubeconfig.{made_of, configure_kube_config-new_for_config}

-- The configuration that the cluster gives its pods.
abbrev pod_config : RestConfig (Unit {0}) Text
pod_config = record {
  host = codes "https://10.3.0.1";
  timeout = pos 0;
  transport = none;
  qps = pos 5;
  burst = pos 0;
  user_agent = [];
  rate_limiter = none;
  tls_client_config = codes "ca.crt";
  group_version = none;
  api_path = [];
  negotiated_serializer = none;
}

-- Every client is the host that it talks to.
abbrev pub some_client_go : ClientGo (Unit {0}) Text (Unit {0}) Text Text Text Text
some_client_go = record {
  no_tls_client_config = [];
  in_cluster_config = ok pod_config;
  transport_config = λ config. ok tt;
  tls_config_for = λ config. ok tt;
  default_kubernetes_user_agent = codes "controller";
  http_client_for = λ config. ok config.host;
  rest_client_for_config_and_client = λ config http_client. ok config.host;
  new_discovery_client_for_config_and_client = λ config http_client. ok config.host;
  new_kubernetes_for_config = λ config. ok config.host;
}

abbrev pub pod_client_config : RestConfig (Unit {0}) Text
pod_client_config = record pod_config {
  timeout = pos (30 * second);
  transport =
      some
        (record (new_transport some_client_go (pos (30 * second))) { tls_client_config = some tt });
  qps = pos 100;
  burst = pos 500;
  tls_client_config = [];
}

pub pod_configured :
    configure_kube_config some_client_go none (pos (30 * second)) ≡ ok pod_client_config
unfolding configure_kube_config in_cluster
pod_configured = refl

configure_kube_config-new_for_config_example :
    new_for_config some_client_go pod_client_config ≡ made_of some_client_go pod_client_config
configure_kube_config-new_for_config_example =
    configure_kube_config-new_for_config some_client_go none (pos (30 * second)) pod_client_config
      pod_configured
