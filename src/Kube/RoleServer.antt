-- ===== src/Kube/RoleServer.antt =====
-- The API server while only the controllers write: what it holds of the AWSIAMRoles besides the
-- secrets, and how the calls change that. These are documented effects of the calls, as in `Server`.
use kube_aws_iam_controller.Base.Tests.{◌≡◌, ◌≢◌, ◌⊎◌}
use kube_aws_iam_controller.Base.Lists.{List, Member}
use kube_aws_iam_controller.Base.Outcome.{ok, err}
use kube_aws_iam_controller.Base.Text.{Text}
use kube_aws_iam_controller.Kube.Types.{Secret, AwsIamRole}
use kube_aws_iam_controller.Kube.Cluster.{Cluster, Event}

-- The same object with the same specification, whatever its status and version are.
pub record SameRole (x y : AwsIamRole) : Type 0 where
  pub same_type : y.type_meta ≡ x.type_meta
  pub same_namespace : y.namespace ≡ x.namespace
  pub same_name : y.name ≡ x.name
  pub same_uid : y.uid ≡ x.uid
  pub same_generation : y.generation ≡ x.generation
  pub same_spec : y.spec ≡ x.spec

-- The role of that namespace and name has the status; the others are untouched.
pub record PutStatus (role : AwsIamRole) (before after : List AwsIamRole) : Type 0 where
  pub put :
      (y : AwsIamRole)
      → Member y after
      → y.namespace ≡ role.namespace
      → y.name ≡ role.name
      → y.status ≡ role.status
  pub from :
      (y : AwsIamRole)
      → Member y after
      → (x : AwsIamRole) × Member x before
        × SameRole x y
        × (((y.namespace ≡ role.namespace) × (y.name ≡ role.name)) ⊎ (y ≡ x))
  pub kept : (x : AwsIamRole) → Member x before → (y : AwsIamRole) × Member y after × SameRole x y

-- `roles` are the AWSIAMRoles of the namespace, and `held` the secrets of a controller. A status is
-- put unless no role of the namespace and name is held with the resource version that was sent.
pub record ServesRoles {S : Type 0} (client : Cluster S) (namespace : Text) (held : S → List Secret)
    (roles : S → List AwsIamRole) : Type 0 where
  pub lists_roles : (s : S) → client.list_aws_iam_roles namespace s ≡ (ok (roles s), s)
  pub clock_keeps : (s : S) → roles (client.now s).1 ≡ roles s
  pub update_keeps :
      (s : S) (ns : Text) (x : Secret) → roles (client.update_secret ns x s).1 ≡ roles s
  pub create_keeps :
      (s : S) (ns : Text) (x : Secret) → roles (client.create_secret ns x s).1 ≡ roles s
  pub delete_keeps : (s : S) (ns name : Text) → roles (client.delete_secret ns name s).1 ≡ roles s
  pub event_keeps :
      (s : S) (role : AwsIamRole) (event : Event)
      → (held (client.record_event role event s) ≡ held s)
        × (roles (client.record_event role event s) ≡ roles s)
  pub statuses :
      (s : S) (role : AwsIamRole)
      → let r = client.update_status role.namespace role s in
        (held r.1 ≡ held s)
        × (((r.0 ≡ ok tt) × PutStatus role (roles s) (roles r.1))
            ⊎ ((e : Text) × (r.0 ≡ err e)
                × ((y : AwsIamRole)
                    → Member y (roles s)
                    → y.namespace ≡ role.namespace
                    → y.name ≡ role.name
                    → y.resource_version ≢ role.resource_version)
                × (roles r.1 ≡ roles s)))
