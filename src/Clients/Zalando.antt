-- ===== src/Clients/Zalando.antt =====
-- The client of the group zalando.org, typed/zalando.org/v1/zalando.org_client.go of the generated
-- clientset.
use kube_aws_iam_controller.Base.Tests.{Option, none, some}
use kube_aws_iam_controller.Base.Outcome.{Outcome, ok}
use kube_aws_iam_controller.Base.Text.{codes}
use kube_aws_iam_controller.Clients.Types.{
  without_conversion, GroupVersion, RestConfig, ClientGo, ◌>>=◌, or_die, with_user_agent,
}

-- `v1.SchemeGroupVersion`
abbrev pub scheme_group_version : GroupVersion
scheme_group_version = record { group = codes "zalando.org"; version = codes "v1" }

-- `ZalandoV1Client`
pub record ZalandoV1Client (A : Type 0) : Type 0 where
  pub rest_client : A

-- `New`
abbrev pub new : {A : Type 0} → A → ZalandoV1Client A
new c = record { rest_client = c }

-- The method `RESTClient`, for a receiver that may be nil.
abbrev rest_client_of : {A : Type 0} → Option (ZalandoV1Client A) → Option A
rest_client_of none = none
rest_client_of (some c) = some c.rest_client

module _ {T R C H K D A : Type 0} (go : ClientGo T R C H K D A) where
  unfoldable pub set_config_defaults : RestConfig T R → RestConfig T R
  unfolding with_user_agent
  set_config_defaults config = with_user_agent go (record config {
    group_version = some scheme_group_version;
    api_path = codes "/apis";
    negotiated_serializer = some without_conversion;
  })

  unfoldable pub new_for_config_and_client : RestConfig T R → H → Outcome (ZalandoV1Client A)
  new_for_config_and_client c http_client = do
    client ← go.rest_client_for_config_and_client (set_config_defaults c) http_client
    ok (record { rest_client = client })

  unfoldable pub new_for_config : RestConfig T R → Outcome (ZalandoV1Client A)
  new_for_config c = do
    let config = set_config_defaults c
    http_client ← go.http_client_for config
    new_for_config_and_client config http_client

  unfoldable pub new_for_config_or_die : RestConfig T R → Outcome (ZalandoV1Client A)
  new_for_config_or_die c = or_die (new_for_config c)
