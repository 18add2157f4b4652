-- ===== src/RoleStore.antt =====
-- role_store.go: the in-memory store of the roles that pods use, by namespace. The lock serialises
-- the three operations, so each is one step of the state.
pub mod Invariant
pub mod Refinement
pub mod History
use kube_aws_iam_controller.Base.Tests.{Bool, true, false, Option, none, some, ◌==◌, if◌then◌else◌}
use kube_aws_iam_controller.Base.Lists.{[], ◌∷◌, length}
use kube_aws_iam_controller.Base.Text.{Text}
use kube_aws_iam_controller.Base.GoMap.{GoMap, lookup, insert, delete}

-- The set `map[string]struct{}` of pod names.
abbrev pub Pods : Type 0
Pods = GoMap (Unit {0})

abbrev pub Namespaces : Type 0
Namespaces = GoMap Pods

pub record RoleStore : Type 0 where
  pub store : GoMap Namespaces

unfoldable pub new_role_store : RoleStore
new_role_store = record { store = [] }

abbrev is_found {ℓ} : {A : Type ℓ} → Option A → Bool
is_found none = false
is_found (some _) = true

unfoldable pub exists_in : Option Namespaces → Text → Bool
exists_in none namespace = false
exists_in (some ns) namespace = is_found (lookup namespace ns)

unfoldable pub exists : RoleStore → Text → Text → Bool
unfolding exists_in
exists s role namespace = exists_in (lookup role s.store) namespace

-- The new value of `ns[namespace]`.
add_pod : Option Pods → Text → Pods
add_pod none name = (name, tt) ∷ []
add_pod (some pods) name = insert name tt pods

-- The new value of `s.Store[role]`.
add_namespace : Option Namespaces → Text → Text → Namespaces
unfolding add_pod
add_namespace none namespace name = (namespace, (name, tt) ∷ []) ∷ []
add_namespace (some ns) namespace name = insert namespace (add_pod (lookup namespace ns) name) ns

unfoldable pub add : RoleStore → Text → Text → Text → RoleStore
unfolding add_namespace
add s role namespace name = record {
  store = insert role (add_namespace (lookup role s.store) namespace name) s.store;
}

-- The namespaces once the pod, if it was found, is taken out: a namespace that would keep no pod
-- is deleted.
remove_pod : Option (Unit {0}) → Namespaces → Pods → Text → Text → Namespaces
remove_pod none ns pods namespace name = ns
remove_pod (some _) ns pods namespace name =
    if length pods == 1 then delete namespace ns else insert namespace (delete name pods) ns

-- A role that has no namespace left is deleted.
prune_role : RoleStore → Text → Namespaces → RoleStore
prune_role s role ns = record {
  store = if length ns == 0 then delete role s.store else insert role ns s.store;
}

remove_namespace : Option Pods → RoleStore → Text → Namespaces → Text → Text → RoleStore
unfolding remove_pod prune_role
remove_namespace none s role ns namespace name = s
remove_namespace (some pods) s role ns namespace name =
    prune_role s role (remove_pod (lookup name pods) ns pods namespace name)

remove_role : Option Namespaces → RoleStore → Text → Text → Text → RoleStore
unfolding remove_namespace
remove_role none s role namespace name = s
remove_role (some ns) s role namespace name =
    remove_namespace (lookup namespace ns) s role ns namespace name

unfoldable pub remove : RoleStore → Text → Text → Text → RoleStore
unfolding remove_role
remove s role namespace name = remove_role (lookup role s.store) s role namespace name
