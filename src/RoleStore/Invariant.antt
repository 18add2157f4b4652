-- ===== src/RoleStore/Invariant.antt =====
-- The invariant of the store of role_store.go, and that every operation keeps it.
use kube_aws_iam_controller.Base.Tests.{
  false, ◌==◌, ◌≡◌, ◌≢◌, refl, Option, none, some, Bool-cases, inl, inr, arith, Holds,
}
use kube_aws_iam_controller.Base.Lists.{length}
use kube_aws_iam_controller.Base.Text.{Text}
use kube_aws_iam_controller.Base.GoMap.{
  UniqueKeys, AllValues, AllValues-insert, AllValues-delete, AllValues-Holds, insert, delete,
  insert-UniqueKeys, delete-UniqueKeys, length-insert-pos, length-delete, lookup,
}
use kube_aws_iam_controller.RoleStore.{
  Pods, Namespaces, RoleStore, new_role_store, add_pod, add_namespace, add, remove_pod, prune_role,
  remove_namespace, remove_role, remove,
}

-- At each level the keys are unique; only the store itself may be empty.
abbrev pub PodsValid : Pods → Type 0
PodsValid pods = UniqueKeys pods × (length pods ≢ 0)

abbrev pub NamespacesValid : Namespaces → Type 0
NamespacesValid ns = UniqueKeys ns × (length ns ≢ 0) × AllValues PodsValid ns

abbrev pub StoreValid : RoleStore → Type 0
StoreValid s = UniqueKeys s.store × AllValues NamespacesValid s.store

pub new_role_store-StoreValid : StoreValid new_role_store
unfolding new_role_store
new_role_store-StoreValid = (tt, tt)

insert-NamespacesValid :
    (ns : Namespaces) (namespace : Text) (pods : Pods)
    → UniqueKeys ns
    → AllValues PodsValid ns
    → PodsValid pods
    → NamespacesValid (insert namespace pods ns)
insert-NamespacesValid ns namespace pods u vs v = (
  insert-UniqueKeys namespace pods ns u,
  length-insert-pos namespace pods ns,
  AllValues-insert PodsValid namespace pods ns v vs,
)

add_pod-PodsValid :
    (found : Option Pods) (name : Text) → Holds PodsValid found → PodsValid (add_pod found name)
unfolding add_pod lookup
add_pod-PodsValid none name h = ((refl, tt), omega arith)
add_pod-PodsValid (some pods) name (u, ne) =
    (insert-UniqueKeys name tt pods u, length-insert-pos name tt pods)

add_namespace-NamespacesValid :
    (found : Option Namespaces) (namespace name : Text)
    → Holds NamespacesValid found
    → NamespacesValid (add_namespace found namespace name)
unfolding add_namespace lookup
add_namespace-NamespacesValid none namespace name h =
    ((refl, tt), omega arith, (((refl, tt), omega arith), tt))
add_namespace-NamespacesValid (some ns) namespace name (u, ne, vs) =
    let valid =
      add_pod-PodsValid (lookup namespace ns) name (AllValues-Holds PodsValid namespace ns vs) in
    insert-NamespacesValid ns namespace _ u vs valid

-- `Add` keeps the invariant.
pub add-StoreValid :
    (s : RoleStore) (role namespace name : Text)
    → StoreValid s
    → StoreValid (add s role namespace name)
unfolding add
add-StoreValid s role namespace name (u, vs) = (
  insert-UniqueKeys role _ s.store u,
  AllValues-insert NamespacesValid role _ s.store
      (add_namespace-NamespacesValid (lookup role s.store) namespace name
        (AllValues-Holds NamespacesValid role s.store vs))
      vs,
)

module _ (ns : Namespaces) (pods : Pods) (namespace name : Text) where
  -- The namespaces that `Remove` leaves are valid but for being empty.
  remove_pod-UniqueKeys :
      (found : Option (Unit {0}))
      → UniqueKeys ns
      → UniqueKeys (remove_pod found ns pods namespace name)
  unfolding remove_pod
  remove_pod-UniqueKeys none u = u
  remove_pod-UniqueKeys (some _) u = elim (Bool-cases (length pods == 1)) [
    | inl one ↦ rw one (delete-UniqueKeys namespace ns u)
    | inr more ↦ rw more (insert-UniqueKeys namespace _ ns u)
  ]

  delete-PodsValid :
      (length pods == 1) ≡ false
      → lookup name pods ≡ some tt
      → PodsValid pods
      → PodsValid (delete name pods)
  delete-PodsValid more found (u, ne) =
      (delete-UniqueKeys name pods u, ground (arith, length-delete name pods tt u found))

  remove_pod-AllValues :
      (found : Option (Unit {0}))
      → lookup name pods ≡ found
      → PodsValid pods
      → AllValues PodsValid ns
      → AllValues PodsValid (remove_pod found ns pods namespace name)
  unfolding remove_pod
  remove_pod-AllValues none e v vs = vs
  remove_pod-AllValues (some tt) e v vs = elim (Bool-cases (length pods == 1)) [
    | inl one ↦ rw one (AllValues-delete PodsValid namespace ns vs)
    | inr more ↦ rw more (AllValues-insert PodsValid namespace _ ns (delete-PodsValid more e v) vs)
  ]

prune_role-StoreValid :
    (s : RoleStore) (role : Text) (ns : Namespaces)
    → StoreValid s
    → UniqueKeys ns
    → AllValues PodsValid ns
    → StoreValid (prune_role s role ns)
unfolding prune_role
prune_role-StoreValid s role ns (u, vs) uns vns = elim (Bool-cases (length ns == 0)) [
  | inl empty ↦
      rw empty (delete-UniqueKeys role s.store u, AllValues-delete NamespacesValid role s.store vs)
  | inr kept ↦
      let nonempty : length ns ≢ 0 = ground arith in
      rw kept (
        insert-UniqueKeys role ns s.store u,
        AllValues-insert NamespacesValid role ns s.store (uns, nonempty, vns) vs,
      )
]

remove_namespace-StoreValid :
    (s : RoleStore) (role : Text) (ns : Namespaces) (namespace name : Text) (found : Option Pods)
    → StoreValid s
    → NamespacesValid ns
    → Holds PodsValid found
    → StoreValid (remove_namespace found s role ns namespace name)
unfolding remove_namespace
remove_namespace-StoreValid s role ns namespace name none v vns h = v
remove_namespace-StoreValid s role ns namespace name (some pods) v (u, _, vs) h =
    prune_role-StoreValid s role _ v
      (remove_pod-UniqueKeys ns pods namespace name (lookup name pods) u)
      (remove_pod-AllValues ns pods namespace name (lookup name pods) refl h vs)

remove_role-StoreValid :
    (s : RoleStore) (role namespace name : Text) (found : Option Namespaces)
    → StoreValid s
    → Holds NamespacesValid found
    → StoreValid (remove_role found s role namespace name)
unfolding remove_role
remove_role-StoreValid s role namespace name none v h = v
remove_role-StoreValid s role namespace name (some ns) v h =
    remove_namespace-StoreValid s role ns namespace name (lookup namespace ns) v h
      (AllValues-Holds PodsValid namespace ns h.2)

-- `Remove` keeps the invariant.
pub remove-StoreValid :
    (s : RoleStore) (role namespace name : Text)
    → StoreValid s
    → StoreValid (remove s role namespace name)
unfolding remove
remove-StoreValid s role namespace name v =
    remove_role-StoreValid s role namespace name (lookup role s.store) v
      (AllValues-Holds NamespacesValid role s.store v.1)
