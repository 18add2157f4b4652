-- ===== src/Informers/Resource.antt =====
-- The way from the factory to the informer of the AWSIAMRoles: the accessors of
-- pkg/client/informers/externalversions (generic.go, zalando.org/interface.go and
-- zalando.org/v1/interface.go and awsiamrole.go). Contexts are not modelled.
use kube_aws_iam_controller.Base.Tests.{◌≡◌, ap, Option, none, some, Bool, ◌&&◌, if◌then◌else◌}
use kube_aws_iam_controller.Base.Lists.{◌++◌}
use kube_aws_iam_controller.Base.Outcome.{Outcome, ok, err}
use kube_aws_iam_controller.Base.Text.{Text, codes, text_eq}
use kube_aws_iam_controller.Credentials.Types.{Duration}
use kube_aws_iam_controller.Informers.Types.{Factory, Cache}
use kube_aws_iam_controller.Informers.{informer_for}
use kube_aws_iam_controller.Informers.Moves.{Reach, informer_for-Reach}

-- `schema.GroupVersionResource`
pub record Resource : Type 0 where
  pub group : Text
  pub version : Text
  pub resource : Text

-- `v1.SchemeGroupVersion.WithResource("awsiamroles")`
abbrev pub aws_iam_roles : Resource
aws_iam_roles = record {
  group = codes "zalando.org";
  version = codes "v1";
  resource = codes "awsiamroles";
}

same_resource : Resource → Resource → Bool
same_resource r r' =
    text_eq r.group r'.group && (text_eq r.version r'.version && text_eq r.resource r'.resource)

-- `client.ZalandoV1().AWSIAMRoles(namespace)`: its List and Watch.
pub record RolesClient (O L W : Type 0) : Type 0 where
  pub list : Text → O → L
  pub watch : Text → O → W

-- `cache.ListWatch`
pub record ListWatch (O L W : Type 0) : Type 0 where
  pub list_func : O → L
  pub watch_func : O → W
  pub list_with_context_func : O → L
  pub watch_func_with_context : O → W

-- `cache.ToListWatcherWithWatchListSemantics` and `cache.NewSharedIndexInformer` over the indexers
-- `X`, and the indexers of the default informer.
pub record NewInformer (O L W X I : Type 0) : Type 0 where
  pub with_watch_list_semantics : ListWatch O L W → RolesClient O L W → ListWatch O L W
  pub new_shared_index_informer : ListWatch O L W → Duration → X → I
  pub namespace_indexers : X

-- `if tweakListOptions != nil { tweakListOptions(&options) }`
abbrev pub tweaked : {O : Type 0} → Option (O → O) → O → O
tweaked none options = options
tweaked (some tweak) options = tweak options

-- `aWSIAMRoleInformer`, `group` and `version` hold the same two values beside the factory.
pub record Access (O : Type 0) : Type 0 where
  pub namespace : Text
  pub tweak_list_options : Option (O → O)

module _ {O L W X I : Type 0} (new : NewInformer O L W X I) where
  unfoldable pub new_filtered_aws_iam_role_informer :
      RolesClient O L W → Text → Duration → X → Option (O → O) → I
  new_filtered_aws_iam_role_informer client namespace resync_period indexers tweak =
      new.new_shared_index_informer
        (new.with_watch_list_semantics
          (record {
            list_func = λ options. client.list namespace (tweaked tweak options);
            watch_func = λ options. client.watch namespace (tweaked tweak options);
            list_with_context_func = λ options. client.list namespace (tweaked tweak options);
            watch_func_with_context = λ options. client.watch namespace (tweaked tweak options);
          })
          client)
        resync_period indexers

  unfoldable pub new_aws_iam_role_informer : RolesClient O L W → Text → Duration → X → I
  new_aws_iam_role_informer client namespace resync_period indexers =
      new_filtered_aws_iam_role_informer client namespace resync_period indexers none

  unfoldable pub default_informer : Access O → RolesClient O L W → Duration → I
  default_informer access client resync_period =
      new_filtered_aws_iam_role_informer client access.namespace resync_period
        new.namespace_indexers access.tweak_list_options

module _ {O L W X I F : Type 0} (cache : Cache F I) (new : NewInformer O L W X I) where
  -- `Informer` of the accessor.
  unfoldable pub informer :
      Access O
      → Factory (RolesClient O L W) (O → O) F I
      → I × Factory (RolesClient O L W) (O → O) F I
  informer access f = informer_for cache (codes "AWSIAMRole") (default_informer new access) f

module _ {C O F I : Type 0} where
  -- `f.Zalando()`, `V1()` and `AWSIAMRoles()`.
  unfoldable pub zalando : Factory C (O → O) F I → Access O
  zalando f = record { namespace = f.namespace; tweak_list_options = f.tweak_list_options }

abbrev pub v1 : {O : Type 0} → Access O → Access O
v1 g = record { namespace = g.namespace; tweak_list_options = g.tweak_list_options }

abbrev pub roles_of : {O : Type 0} → Access O → Access O
roles_of v = record { namespace = v.namespace; tweak_list_options = v.tweak_list_options }

-- The text that `%v` prints.
abbrev pub print_resource : Resource → Text
print_resource r = r.group ++ codes "/" ++ r.version ++ codes ", Resource=" ++ r.resource

-- `genericInformer`; the resource without its version.
pub record GenericInformer (I : Type 0) : Type 0 where
  pub informer : I
  pub group : Text
  pub resource : Text

abbrev pub generic : {I G : Type 0} → Resource → I × G → Outcome (GenericInformer I) × G
generic r (i, f) = (ok (record { informer = i; group = r.group; resource = r.resource }), f)

module _ {O L W X I F : Type 0} (cache : Cache F I) (new : NewInformer O L W X I) where
  unfoldable pub for_resource :
      Resource
      → Factory (RolesClient O L W) (O → O) F I
      → Outcome (GenericInformer I) × Factory (RolesClient O L W) (O → O) F I
  unfolding same_resource
  for_resource resource f =
      if same_resource resource aws_iam_roles
      then generic resource (informer cache new (roles_of (v1 (zalando f))) f)
      else (err (codes "no informer found for " ++ print_resource resource), f)

  -- Generic and typed access share one informer: once an accessor, with whatever namespace and
  -- filter, has given one, ForResource of the AWSIAMRoles gives the same, whatever happens in
  -- between.
  pub for_resource-Reach :
      (access : Access O) (f g : Factory (RolesClient O L W) (O → O) F I)
      → Reach cache (informer cache new access f).1 g
      → for_resource aws_iam_roles g ≡ generic aws_iam_roles ((informer cache new access f).0, g)
  unfolding for_resource informer text_eq
  for_resource-Reach access f g r = ap (generic aws_iam_roles) (
      informer_for-Reach cache (codes "AWSIAMRole") (default_informer new access)
        (default_informer new (zalando g)) f g r)
