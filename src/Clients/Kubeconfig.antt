-- ===== src/Clients/Kubeconfig.antt =====
-- ConfigureKubeConfig and NewForConfig of unified.go together.
use kube_aws_iam_controller.Base.Tests.{
  ◌≡◌, refl, ◌∙◌, Option, none, some, inl, inr, Bool-cases, Option-cases, if◌then◌else◌,
}
use kube_aws_iam_controller.Base.Lists.{[]}
use kube_aws_iam_controller.Base.Int.{pos}
use kube_aws_iam_controller.Base.Outcome.{ok_eq, Outcome, ok, Outcome-cases}
use kube_aws_iam_controller.Base.Text.{Text, codes, text_eq}
use kube_aws_iam_controller.Credentials.Types.{Duration}
use kube_aws_iam_controller.Clients.Types.{
  TokenBucket, RestConfig, ClientGo, ◌>>=◌, bind-ok, bind_assoc, bind-ap, with_user_agent,
  without_conversion,
}
use kube_aws_iam_controller.Clients.Zalando
use kube_aws_iam_controller.Clients.Zalando.{scheme_group_version}
use kube_aws_iam_controller.Clients.Versioned
use kube_aws_iam_controller.Clients.Versioned.{with_rate_limiter, wants_limiter}
use kube_aws_iam_controller.Clients.{
  UnifiedClientset, new_for_config, in_cluster, configure_kube_config,
}

-- The limiter that is set, or else one of 100 queries per second with bursts of 500.
abbrev limiter_or_default : Option TokenBucket → TokenBucket
limiter_or_default none = record { qps = pos 100; burst = pos 500 }
limiter_or_default (some limiter) = limiter

module _ {T R C H K D A : Type 0} (go : ClientGo T R C H K D A) where
  abbrev agent_or_default : Text → Text
  agent_or_default agent = if text_eq agent [] then go.default_kubernetes_user_agent else agent

  -- The configuration of the discovery client.
  abbrev pub discovery_config : RestConfig T R → RestConfig T R
  discovery_config c = record c {
    user_agent = agent_or_default c.user_agent;
    rate_limiter = some (limiter_or_default c.rate_limiter);
  }

  -- The configuration of the client for the AWSIAMRoles.
  abbrev pub roles_config : RestConfig T R → RestConfig T R
  roles_config c = record (discovery_config c) {
    group_version = some scheme_group_version;
    api_path = codes "/apis";
    negotiated_serializer = some without_conversion;
  }

  record IsLimited (c : RestConfig T R) : Type 0 where
    is_qps : c.qps ≡ pos 100
    is_burst : c.burst ≡ pos 500

  in_cluster-IsLimited :
      (timeout : Duration) (c : RestConfig T R) → in_cluster go timeout ≡ ok c → IsLimited c
  unfolding in_cluster
  in_cluster-IsLimited timeout c made =
      let (config, e, made') = bind-ok go.in_cluster_config _ c made in
      let (transport, e', made'') = bind-ok (go.transport_config config) _ c made' in
      let (tls, e'', done) = bind-ok (go.tls_config_for transport) _ c made'' in
      rw (← ok_eq done) (record { is_qps = refl; is_burst = refl })

  configure_kube_config-IsLimited :
      (server : Option Text) (timeout : Duration) (c : RestConfig T R)
      → configure_kube_config go server timeout ≡ ok c
      → IsLimited c
  unfolding configure_kube_config
  configure_kube_config-IsLimited (some url) timeout c made =
      rw (← ok_eq made) (record { is_qps = refl; is_burst = refl })
  configure_kube_config-IsLimited none timeout c made = in_cluster-IsLimited timeout c made

  with_user_agent-eq :
      (c : RestConfig T R)
      → with_user_agent go c ≡ record c { user_agent = agent_or_default c.user_agent }
  unfolding with_user_agent
  with_user_agent-eq c = elim (Bool-cases (text_eq c.user_agent [])) [
    | inl e ↦ rw e refl
    | inr e ↦ rw e refl
  ]

  agent_or_default_twice :
      (agent : Text) → agent_or_default (agent_or_default agent) ≡ agent_or_default agent
  agent_or_default_twice agent = elim (Bool-cases (text_eq agent [])) [
    | inl e ↦ elim (Bool-cases (text_eq go.default_kubernetes_user_agent [])) [
      | inl e' ↦ rw (e, e') refl
      | inr e' ↦ rw (e, e') refl
    ]
    | inr e ↦ rw (e, e) refl
  ]

  with_rate_limiter-IsLimited :
      (c : RestConfig T R)
      → IsLimited c
      → with_rate_limiter go c
        ≡ ok (record c { rate_limiter = some (limiter_or_default c.rate_limiter) })
  unfolding with_rate_limiter wants_limiter
  with_rate_limiter-IsLimited c v = elim (Option-cases c.rate_limiter) [
    | inl e ↦ rw (e, v.is_qps, v.is_burst) refl
    | inr (l, e) ↦ rw e refl
  ]

  abbrev with_agent : RestConfig T R → RestConfig T R
  with_agent c = record c { user_agent = agent_or_default c.user_agent }

  with_agent-IsLimited : (c : RestConfig T R) → IsLimited c → IsLimited (with_agent c)
  with_agent-IsLimited c v = record { is_qps = v.is_qps; is_burst = v.is_burst }

  roles_client-discovery_config :
      (c : RestConfig T R) (h : H)
      → Zalando.new_for_config_and_client go (discovery_config c) h ≡ (
          go.rest_client_for_config_and_client (roles_config c) h
          >>= (λ a. ok (record { rest_client = a })))
  unfolding Zalando.new_for_config_and_client Zalando.set_config_defaults
  roles_client-discovery_config c h =
      rw (with_user_agent-eq, agent_or_default_twice c.user_agent) refl

  -- The clients that share the HTTP client, and the client of the core API.
  abbrev made_with : RestConfig T R → K → H → Outcome (UnifiedClientset A D K)
  made_with c k http_client = do
    roles ← go.rest_client_for_config_and_client (roles_config c) http_client
    discovery ← go.new_discovery_client_for_config_and_client (discovery_config c) http_client
    ok (record {
      kubernetes = k;
      aws_iam_role = record {
        discovery_client = discovery;
        zalando_v1 = record { rest_client = roles };
      };
    })

  versioned-made_with :
      (c : RestConfig T R) (k : K) (h : H)
      → IsLimited c
      → (Versioned.new_for_config_and_client go (with_agent c) h
          >>= (λ r. ok (record { kubernetes = k; aws_iam_role = r })))
        ≡ made_with c k h
  unfolding Versioned.new_for_config_and_client
  versioned-made_with c k h v =
      rw
        (
          with_rate_limiter-IsLimited (with_agent c) (with_agent-IsLimited c v),
          roles_client-discovery_config c h,
        )
        (elim (Outcome-cases (go.rest_client_for_config_and_client (roles_config c) h)) [
          | inl (a, e) ↦
              rw e
                (elim (Outcome-cases
                  (go.new_discovery_client_for_config_and_client (discovery_config c) h)) [
                    | inl (d, e') ↦ rw e' refl
                    | inr (inl (m, e')) ↦ rw e' refl
                    | inr (inr e') ↦ rw e' refl
                  ])
          | inr (inl (m, e)) ↦ rw e refl
          | inr (inr e) ↦ rw e refl
        ])

  new_for_config-made_with :
      (c : RestConfig T R) (k : K)
      → IsLimited c
      → (Versioned.new_for_config go c >>= (λ r. ok (record { kubernetes = k; aws_iam_role = r })))
        ≡ (go.http_client_for (with_agent c) >>= made_with c k)
  unfolding Versioned.new_for_config
  new_for_config-made_with c k v = rw (with_user_agent-eq c) (
      bind_assoc (go.http_client_for (with_agent c)) _ _
      ∙ bind-ap (go.http_client_for (with_agent c)) _ _ (λ h. versioned-made_with c k h v))

  -- The clients, each made with its configuration.
  abbrev pub made_of : RestConfig T R → Outcome (UnifiedClientset A D K)
  made_of c = do
    kube_client ← go.new_kubernetes_for_config c
    http_client ← go.http_client_for (with_agent c)
    made_with c kube_client http_client

  -- For a configuration that ConfigureKubeConfig gives, NewForConfig makes the three clients with the
  -- configurations that are meant for each, or passes on the error of the call that fails first: the
  -- roles' client speaks zalando.org/v1 under /apis, the limiter is the one that is set or else 100
  -- queries per second with bursts of 500, and the check of the burst never fails.
  pub configure_kube_config-new_for_config :
      (server : Option Text) (timeout : Duration) (c : RestConfig T R)
      → configure_kube_config go server timeout ≡ ok c
      → new_for_config go c ≡ made_of c
  unfolding new_for_config
  configure_kube_config-new_for_config server timeout c made =
      bind-ap (go.new_kubernetes_for_config c) _ _
        (λ k. new_for_config-made_with c k (configure_kube_config-IsLimited server timeout c made))
