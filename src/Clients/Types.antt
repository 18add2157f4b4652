-- ===== src/Clients/Types.antt =====
-- The configuration of the REST clients, and what the set-up of the clients uses of client-go.
use kube_aws_iam_controller.Base.Tests.{◌≡◌, refl, ℕ, Option, Bool, if◌then◌else◌}
use kube_aws_iam_controller.Base.Lists.{[]}
use kube_aws_iam_controller.Base.Int.{ℤ}
use kube_aws_iam_controller.Base.Outcome.{Outcome, ok, err, panic}
use kube_aws_iam_controller.Base.Text.{Text, text_eq}
use kube_aws_iam_controller.Credentials.Types.{Duration}

-- `http.Transport` over the TLS configurations `T` of the Go library: the fields that are set.
pub record HttpTransport (T : Type 0) : Type 0 where
  pub dial_timeout : Duration
  pub dial_keep_alive : Duration
  pub dial_dual_stack : Bool
  pub tls_handshake_timeout : Duration
  pub response_header_timeout : Duration
  pub max_idle_conns : ℕ
  pub max_idle_conns_per_host : ℕ
  pub idle_conn_timeout : Duration
  pub tls_client_config : Option T

-- `scheme.Codecs` of the generated clientset, wrapped for a generated client without conversion.
pub data Serializer : Type 0 where
  without_conversion : Serializer

-- `flowcontrol.NewTokenBucketRateLimiter(qps, burst)`
pub record TokenBucket : Type 0 where
  pub qps : ℤ
  pub burst : ℤ

-- `schema.GroupVersion`
pub record GroupVersion : Type 0 where
  pub group : Text
  pub version : Text

-- `rest.Config` over the TLS settings `R` of client-go: the fields that the source reads or writes.
-- The queries per second are whole.
pub record RestConfig (T R : Type 0) : Type 0 where
  pub host : Text
  pub timeout : Duration
  pub transport : Option (HttpTransport T)
  pub qps : ℤ
  pub burst : ℤ
  pub user_agent : Text
  pub rate_limiter : Option TokenBucket
  pub tls_client_config : R
  pub group_version : Option GroupVersion
  pub api_path : Text
  pub negotiated_serializer : Option Serializer

-- The functions of client-go: `C` are the configurations of its transports, `H` HTTP clients, `K`
-- clients of the core API, `D` discovery clients and `A` REST clients.
pub record ClientGo (T R C H K D A : Type 0) : Type 0 where
  pub no_tls_client_config : R
  pub in_cluster_config : Outcome (RestConfig T R)
  pub transport_config : RestConfig T R → Outcome C
  pub tls_config_for : C → Outcome T
  pub default_kubernetes_user_agent : Text
  pub http_client_for : RestConfig T R → Outcome H
  pub rest_client_for_config_and_client : RestConfig T R → H → Outcome A
  pub new_discovery_client_for_config_and_client : RestConfig T R → H → Outcome D
  pub new_kubernetes_for_config : RestConfig T R → Outcome K

-- `a, err := call(); if err != nil { return nil, err }`
infixl 5 ◌>>=◌
abbrev pub ◌>>=◌ : {A B : Type 0} → Outcome A → (A → Outcome B) → Outcome B
ok a >>= f = f a
err e >>= f = err e
panic >>= f = panic

pub bind-ok :
    {A B : Type 0} (o : Outcome A) (f : A → Outcome B) (b : B)
    → (o >>= f) ≡ ok b
    → (a : A) × (o ≡ ok a) × (f a ≡ ok b)
bind-ok (ok a) f b e = (a, refl, e)
bind-ok (err m) f b e = absurd cc
bind-ok panic f b e = absurd cc

pub bind_assoc :
    {A B E : Type 0} (o : Outcome A) (f : A → Outcome B) (g : B → Outcome E)
    → ((o >>= f) >>= g) ≡ (o >>= (λ a. f a >>= g))
bind_assoc (ok a) f g = refl
bind_assoc (err m) f g = refl
bind_assoc panic f g = refl

pub bind-ap :
    {A B : Type 0} (o : Outcome A) (f g : A → Outcome B)
    → ((a : A) → f a ≡ g a)
    → (o >>= f) ≡ (o >>= g)
bind-ap (ok a) f g e = e a
bind-ap (err m) f g e = refl
bind-ap panic f g e = refl

-- `panic(err)` of the constructors that end in `OrDie`.
abbrev pub or_die : {A : Type 0} → Outcome A → Outcome A
or_die (ok a) = ok a
or_die (err e) = panic
or_die panic = panic

module _ {T R C H K D A : Type 0} (go : ClientGo T R C H K D A) where
  -- `rest.DefaultKubernetesUserAgent()`, where the configuration names no user agent.
  unfoldable pub with_user_agent : RestConfig T R → RestConfig T R
  with_user_agent config =
      if text_eq config.user_agent []
      then record config { user_agent = go.default_kubernetes_user_agent }
      else config
