-- ===== src/Informers/Types.antt =====
-- The state of the factory, and what it uses of client-go's cache package.
use kube_aws_iam_controller.Base.Tests.{ℕ, Option, Bool}
use kube_aws_iam_controller.Base.Text.{Text}
use kube_aws_iam_controller.Base.GoMap.{GoMap}
use kube_aws_iam_controller.Credentials.Types.{Duration}

-- `sharedInformerFactory` over the types of the client, of the filters, of the transforms and of
-- the informers, which are references.
pub record Factory (C T F I : Type 0) : Type 0 where
  pub client : C
  pub namespace : Text
  pub tweak_list_options : Option T
  pub default_resync : Duration
  pub custom_resync : GoMap Duration
  pub transform : Option F
  pub informers : GoMap I
  pub started_informers : GoMap Bool
  pub wg : ℕ
  pub shutting_down : Bool
  pub launched : GoMap I

-- `SetTransform`, as the informer afterwards, and the answer of `WaitForCacheSync`.
pub record Cache (F I : Type 0) : Type 0 where
  pub set_transform : I → Option F → I
  pub wait_for_cache_sync : I → Bool
