-- ===== src/Clients.antt =====
-- The set-up of the clients, pkg/clientset/unified.go.
pub mod Types
pub mod Zalando
pub mod Versioned
pub mod Kubeconfig
use kube_aws_iam_controller.Base.Tests.{◌*◌, Option, none, some, false}
use kube_aws_iam_controller.Base.Lists.{List, [], ◌∷◌}
use kube_aws_iam_controller.Base.Int.{pos}
use kube_aws_iam_controller.Base.Select.{Wake, tick, terminated, Ended, waiting, returned}
use kube_aws_iam_controller.Base.Outcome.{Outcome, ok}
use kube_aws_iam_controller.Base.Text.{Text}
use kube_aws_iam_controller.Credentials.Types.{Duration, second}
use kube_aws_iam_controller.Clients.Types.{HttpTransport, RestConfig, ClientGo, ◌>>=◌}
use kube_aws_iam_controller.Clients.Zalando.{ZalandoV1Client}
use kube_aws_iam_controller.Clients.Versioned
use kube_aws_iam_controller.Clients.Versioned.{Clientset}

-- `Clientset` of unified.go.
pub record UnifiedClientset (A D K : Type 0) : Type 0 where
  pub kubernetes : K
  pub aws_iam_role : Clientset A D

-- `ZalandoV1` of both clientsets.
abbrev zalando_v1_of : {A D K : Type 0} → UnifiedClientset A D K → ZalandoV1Client A
zalando_v1_of c = c.aws_iam_role.zalando_v1

-- `NewClientset`
abbrev new_clientset : {A D K : Type 0} → K → Clientset A D → UnifiedClientset A D K
new_clientset kubernetes aws_iam_role = record {
  kubernetes = kubernetes;
  aws_iam_role = aws_iam_role;
}

module _ {T R C H K D A : Type 0} (go : ClientGo T R C H K D A) where
  -- `NewForConfig` of unified.go.
  unfoldable pub new_for_config : RestConfig T R → Outcome (UnifiedClientset A D K)
  new_for_config kubeconfig = do
    kube_client ← go.new_kubernetes_for_config kubeconfig
    aws_iam_role_client ← Versioned.new_for_config go kubeconfig
    ok (record { kubernetes = kube_client; aws_iam_role = aws_iam_role_client })

  abbrev pub new_transport : Duration → HttpTransport T
  new_transport timeout = record {
    dial_timeout = timeout;
    dial_keep_alive = pos (30 * second);
    dial_dual_stack = false;
    tls_handshake_timeout = timeout;
    response_header_timeout = pos (10 * second);
    max_idle_conns = 10;
    max_idle_conns_per_host = 2;
    idle_conn_timeout = pos (20 * second);
    tls_client_config = none;
  }

  -- With the URL of an API server; the other fields have their zero values.
  abbrev pub outside : Text → Duration → RestConfig T R
  outside api_server_url timeout = record {
    host = api_server_url;
    timeout = timeout;
    transport = some (new_transport timeout);
    qps = pos 100;
    burst = pos 500;
    user_agent = [];
    rate_limiter = none;
    tls_client_config = go.no_tls_client_config;
    group_version = none;
    api_path = [];
    negotiated_serializer = none;
  }

  -- In the cluster: its TLS configuration goes to the transport.
  unfoldable pub in_cluster : Duration → Outcome (RestConfig T R)
  in_cluster timeout = do
    config ← go.in_cluster_config
    rest_transport_config ← go.transport_config config
    rest_tls_config ← go.tls_config_for rest_transport_config
    ok (record config {
      timeout = timeout;
      transport =
          some (record (new_transport timeout) { tls_client_config = some rest_tls_config });
      qps = pos 100;
      burst = pos 500;
      tls_client_config = go.no_tls_client_config;
    })

  unfoldable pub configure_kube_config : Option Text → Duration → Outcome (RestConfig T R)
  configure_kube_config (some api_server_url) timeout = ok (outside api_server_url timeout)
  configure_kube_config none timeout = in_cluster timeout

-- The goroutine of ConfigureKubeConfig, over what its select wakes up to: the timer of 20 seconds
-- or the end of the program's context.
unfoldable close_idle : {S : Type 0} → (S → S) → List Wake → S → Ended × S
close_idle close_idle_connections [] s = (waiting, s)
close_idle close_idle_connections (tick ∷ wakes) s =
    close_idle close_idle_connections wakes (close_idle_connections s)
close_idle close_idle_connections (terminated ∷ wakes) s = (returned, s)
