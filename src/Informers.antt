-- ===== src/Informers.antt =====
-- The shared informers of pkg/client/informers/externalversions/factory.go. The mutex serialises the
-- operations, so each is one step of the factory. A type of objects (`reflect.Type`) is a text. What
-- the goroutines do is the informers' own matter: the factory knows how many of them run (`wg`), and
-- the model records with which informers they were started (`launched`).
pub mod Types
pub mod Sound
pub mod Given
pub mod Moves
pub mod Sync
pub mod Resource
use kube_aws_iam_controller.Base.Tests.{
  suc, ◌-◌, Option, none, some, Bool, true, false, if◌then◌else◌,
}
use kube_aws_iam_controller.Base.Lists.{List, [], ◌∷◌}
use kube_aws_iam_controller.Base.Text.{Text}
use kube_aws_iam_controller.Base.GoMap.{GoMap, lookup, insert}
use kube_aws_iam_controller.Credentials.Types.{Duration}
use kube_aws_iam_controller.Informers.Types.{Factory, Cache}

insert_each : GoMap Duration → GoMap Duration → GoMap Duration
insert_each [] m = m
insert_each ((k, v) ∷ config) m = insert_each config (insert k v m)

-- A flag that is read from a map: false where the key is missing.
abbrev flag : Option Bool → Bool
flag none = false
flag (some b) = b

sync_each : {F I : Type 0} → Cache F I → GoMap I → GoMap Bool → GoMap Bool
sync_each cache [] res = res
sync_each cache ((inform_type, informer) ∷ informers) res =
    sync_each cache informers (insert inform_type (cache.wait_for_cache_sync informer) res)

module _ {C T F I : Type 0} where
  -- The options of the constructor.
  unfoldable pub with_custom_resync_config : GoMap Duration → Factory C T F I → Factory C T F I
  unfolding insert_each
  with_custom_resync_config resync_config factory = record factory {
    custom_resync = insert_each resync_config factory.custom_resync;
  }

  unfoldable pub with_tweak_list_options : Option T → Factory C T F I → Factory C T F I
  with_tweak_list_options tweak factory = record factory { tweak_list_options = tweak }

  unfoldable pub with_namespace : Text → Factory C T F I → Factory C T F I
  with_namespace namespace factory = record factory { namespace = namespace }

  unfoldable pub with_transform : Option F → Factory C T F I → Factory C T F I
  with_transform transform factory = record factory { transform = transform }

  -- A factory without options; `v1.NamespaceAll` is the empty text.
  unfoldable pub plain_factory : C → Duration → Factory C T F I
  plain_factory client default_resync = record {
    client = client;
    namespace = [];
    tweak_list_options = none;
    default_resync = default_resync;
    custom_resync = [];
    transform = none;
    informers = [];
    started_informers = [];
    wg = 0;
    shutting_down = false;
    launched = [];
  }

  apply_all : Factory C T F I → List (Factory C T F I → Factory C T F I) → Factory C T F I
  apply_all factory [] = factory
  apply_all factory (opt ∷ options) = apply_all (opt factory) options

  unfoldable pub new_shared_informer_factory_with_options :
      C → Duration → List (Factory C T F I → Factory C T F I) → Factory C T F I
  unfolding apply_all plain_factory
  new_shared_informer_factory_with_options client default_resync options =
      apply_all (plain_factory client default_resync) options

  unfoldable pub new_shared_informer_factory : C → Duration → Factory C T F I
  new_shared_informer_factory client default_resync =
      new_shared_informer_factory_with_options client default_resync []

  unfoldable pub new_filtered_shared_informer_factory :
      C → Duration → Text → Option T → Factory C T F I
  new_filtered_shared_informer_factory client default_resync namespace tweak =
      new_shared_informer_factory_with_options client default_resync
        (with_namespace namespace ∷ with_tweak_list_options tweak ∷ [])

  -- `f.startedInformers[informerType]`
  unfoldable pub is_started : Text → Factory C T F I → Bool
  is_started informer_type f = flag (lookup informer_type f.started_informers)

  -- A goroutine is started with the informer.
  unfoldable pub launch : Text → I → Factory C T F I → Factory C T F I
  launch informer_type informer f = record f {
    wg = suc f.wg;
    started_informers = insert informer_type true f.started_informers;
    launched = (informer_type, informer) ∷ f.launched;
  }

  unfoldable pub start_one : Text → I → Factory C T F I → Factory C T F I
  start_one informer_type informer f =
      if is_started informer_type f then f else launch informer_type informer f

  unfoldable pub start_each : GoMap I → Factory C T F I → Factory C T F I
  start_each [] f = f
  start_each ((informer_type, informer) ∷ informers) f =
      start_each informers (start_one informer_type informer f)

  unfoldable pub start : Factory C T F I → Factory C T F I
  start f = if f.shutting_down then f else start_each f.informers f

  -- The part of `Shutdown` under the lock; then it waits until no goroutine is left.
  unfoldable pub shut_down : Factory C T F I → Factory C T F I
  shut_down f = record f { shutting_down = true }

  -- `defer f.wg.Done()`, at the end of a goroutine; a `wg` of 0 is left alone, since no goroutine
  -- is there to end.
  unfoldable pub one_done : Factory C T F I → Factory C T F I
  one_done f = record f { wg = f.wg - 1 }

  unfoldable pub resync_period : Text → Factory C T F I → Duration
  resync_period informer_type f = elim (lookup informer_type f.custom_resync) [
    | none ↦ f.default_resync
    | some custom ↦ custom
  ]

  -- A new informer is registered for its type.
  make_informer : Cache F I → Text → (C → Duration → I) → Factory C T F I → I × Factory C T F I
  make_informer cache informer_type new_func f =
      let informer =
        cache.set_transform (new_func f.client (resync_period informer_type f)) f.transform in
      (informer, record f { informers = insert informer_type informer f.informers })

  unfoldable pub informer_for :
      Cache F I → Text → (C → Duration → I) → Factory C T F I → I × Factory C T F I
  unfolding make_informer
  informer_for cache informer_type new_func f = elim (lookup informer_type f.informers) [
    | none ↦ make_informer cache informer_type new_func f
    | some informer ↦ (informer, f)
  ]

  -- The started informers, as `WaitForCacheSync` copies them under the lock.
  unfoldable pub started_of : GoMap I → Factory C T F I → GoMap I → GoMap I
  started_of [] f informers = informers
  started_of ((informer_type, informer) ∷ rest) f informers =
      started_of rest f
        (if is_started informer_type f then insert informer_type informer informers else informers)

  unfoldable pub wait_for_cache_sync : Cache F I → Factory C T F I → GoMap Bool
  unfolding sync_each
  wait_for_cache_sync cache f = sync_each cache (started_of f.informers f []) []
