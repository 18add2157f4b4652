-- ===== src/Clients/Versioned.antt =====
-- The generated clientset, pkg/client/clientset/versioned/clientset.go.
use kube_aws_iam_controller.Base.Tests.{Option, none, some, Bool, false, if◌then◌else◌}
use kube_aws_iam_controller.Base.Int.{pos, ltb_ℤ}
use kube_aws_iam_controller.Base.Outcome.{Outcome, ok, err}
use kube_aws_iam_controller.Base.Text.{Text, codes}
use kube_aws_iam_controller.Clients.Types.{RestConfig, ClientGo, ◌>>=◌, or_die, with_user_agent}
use kube_aws_iam_controller.Clients.Zalando
use kube_aws_iam_controller.Clients.Zalando.{ZalandoV1Client}

abbrev pub burst_required : Text
burst_required =
    codes
      "burst is required to be greater than 0 when RateLimiter is not set and QPS is set to greater than 0"

-- `Clientset` of the generated client.
pub record Clientset (A D : Type 0) : Type 0 where
  pub discovery_client : D
  pub zalando_v1 : ZalandoV1Client A

-- `New`; the argument is `discovery.NewDiscoveryClient`.
abbrev new : {A D : Type 0} → (A → D) → A → Clientset A D
new new_discovery_client c = record {
  discovery_client = new_discovery_client c;
  zalando_v1 = Zalando.new c;
}

-- The method `Discovery`, for a receiver that may be nil.
abbrev discovery_of : {A D : Type 0} → Option (Clientset A D) → Option D
discovery_of none = none
discovery_of (some c) = some c.discovery_client

module _ {T R C H K D A : Type 0} (go : ClientGo T R C H K D A) where
  -- No limiter is set, and there are queries to limit.
  unfoldable pub wants_limiter : RestConfig T R → Bool
  wants_limiter c = elim c.rate_limiter [ none ↦ ltb_ℤ (pos 0) c.qps | some _ ↦ false ]

  -- The two checks at the start of NewForConfigAndClient.
  unfoldable pub with_rate_limiter : RestConfig T R → Outcome (RestConfig T R)
  unfolding wants_limiter
  with_rate_limiter c =
      if wants_limiter c
      then if ltb_ℤ (pos 0) c.burst
        then ok (record c { rate_limiter = some (record { qps = c.qps; burst = c.burst }) })
        else err burst_required
      else ok c

  unfoldable pub new_for_config_and_client : RestConfig T R → H → Outcome (Clientset A D)
  new_for_config_and_client c http_client = do
    config ← with_rate_limiter c
    zalando ← Zalando.new_for_config_and_client go config http_client
    discovery ← go.new_discovery_client_for_config_and_client config http_client
    ok (record { discovery_client = discovery; zalando_v1 = zalando })

  unfoldable pub new_for_config : RestConfig T R → Outcome (Clientset A D)
  unfolding with_user_agent
  new_for_config c = do
    let config = with_user_agent go c
    http_client ← go.http_client_for config
    new_for_config_and_client config http_client

  unfoldable pub new_for_config_or_die : RestConfig T R → Outcome (Clientset A D)
  new_for_config_or_die c = or_die (new_for_config c)
