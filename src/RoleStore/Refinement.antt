-- ===== src/RoleStore/Refinement.antt =====
-- The store of role_store.go against its contract: it is a set of triples of a role, a namespace
-- and a pod.
use kube_aws_iam_controller.Base.Tests.{
  ◌≡◌, refl, ◌↔◌, Bool, true, false, not, ◌&&◌, ◌||◌, Option, none, some, arith, ◌==◌, Option-cases,
  Bool-cases, inl, inr, if◌then◌else◌, Holds,
}
use kube_aws_iam_controller.Base.Lists.{length, [], ◌∷◌}
use kube_aws_iam_controller.Base.Text.{Text, text_eq, text_eq_iff, text_eq_refl}
use kube_aws_iam_controller.Base.GoMap.{
  AllValues-Holds, lookup, lookup-insert, lookup-delete, lookup_of_length_one, delete,
  lookup-eq-none_of_length_zero, AllValues-lookup,
}
use kube_aws_iam_controller.RoleStore.{
  Pods, Namespaces, RoleStore, new_role_store, is_found, exists_in, exists, add_pod, add_namespace,
  add, remove_pod, prune_role, remove_namespace, remove_role, remove,
}
use kube_aws_iam_controller.RoleStore.Invariant.{PodsValid, NamespacesValid, StoreValid}

has_pod : Option Pods → Text → Bool
has_pod none name = false
has_pod (some pods) name = is_found (lookup name pods)

has_in : Option Namespaces → Text → Text → Bool
has_in none namespace name = false
has_in (some ns) namespace name = has_pod (lookup namespace ns) name

-- The triple is in the set that the store stands for.
pub has : RoleStore → Text → Text → Text → Bool
has s role namespace name = has_in (lookup role s.store) namespace name

abbrev pub same : Text → Text → Text → Text → Text → Text → Bool
same r n p r' n' p' = text_eq r r' && (text_eq n n' && text_eq p p')

has_pod-add_pod :
    (found : Option Pods) (p p' : Text)
    → has_pod (some (add_pod found p)) p' ≡ (text_eq p p' || has_pod found p')
unfolding has_pod add_pod lookup
has_pod-add_pod none p p' = ground arith
has_pod-add_pod (some pods) p p' = ground (arith, lookup-insert p p' tt pods)

has_in-add_namespace :
    (found : Option Namespaces) (n p n' p' : Text)
    → has_in (some (add_namespace found n p)) n' p'
      ≡ (text_eq n n' && text_eq p p' || has_in found n' p')
unfolding has_in add_namespace
has_in-add_namespace none n p n' p' = unfold lookup has_pod in ground arith
has_in-add_namespace (some ns) n p n' p' = ground (
  arith,
  lookup-insert n n' (add_pod (lookup n ns) p) ns,
  has_pod-add_pod (lookup n ns) p p',
  text_eq_iff n n',
)

-- `Add` inserts the triple into the set and changes nothing else.
pub has-add :
    (s : RoleStore) (r n p r' n' p' : Text)
    → has (add s r n p) r' n' p' ≡ (same r n p r' n' p' || has s r' n' p')
unfolding has add
has-add s r n p r' n' p' = ground (
  arith,
  lookup-insert r r' (add_namespace (lookup r s.store) n p) s.store,
  has_in-add_namespace (lookup r s.store) n p n' p',
  text_eq_iff r r',
)

-- One pod taken out of a namespace that holds `pods`.
module _ (ns : Namespaces) (pods : Pods) (n p n' p' : Text) (here : lookup n ns ≡ some pods) where
  has_pod-remove_pod :
      (found : Option (Unit {0}))
      → lookup p pods ≡ found
      → has_pod (lookup n' (remove_pod found ns pods n p)) p'
        ≡ (has_pod (lookup n' ns) p' && not (text_eq n n' && text_eq p p'))
  unfolding has_pod remove_pod
  has_pod-remove_pod none e = ground (arith, text_eq_iff n n', text_eq_iff p p')
  has_pod-remove_pod (some tt) e = elim (Bool-cases (length pods == 1)) [
    | inl one ↦
        let single : length pods ≡ 1 = ground arith in
        rw one (
          ground (
            arith,
            lookup-delete n n' ns,
            lookup_of_length_one p p' tt pods single e,
            text_eq_iff n n',
          ))
    | inr more ↦ rw more (
        ground
          (arith, lookup-insert n n' (delete p pods) ns, lookup-delete p p' pods, text_eq_iff n n'))
  ]

has-prune_role :
    (s : RoleStore) (r : Text) (ns : Namespaces) (r' n' p' : Text)
    → has (prune_role s r ns) r' n' p'
      ≡ (if text_eq r r' then has_in (some ns) n' p' else has s r' n' p')
unfolding has has_in has_pod prune_role
has-prune_role s r ns r' n' p' = elim (Bool-cases (length ns == 0)) [
  | inl empty ↦
      let none_left = lookup-eq-none_of_length_zero n' ns (ground arith) in
      rw empty (ground (arith, lookup-delete r r' s.store, none_left))
  | inr kept ↦ rw kept (ground (arith, lookup-insert r r' ns s.store))
]

module _ (s : RoleStore) (r : Text) (ns : Namespaces) (n p r' n' p' : Text)
    (here : lookup r s.store ≡ some ns) where
  has-remove_namespace :
      (found : Option Pods)
      → lookup n ns ≡ found
      → has (remove_namespace found s r ns n p) r' n' p'
        ≡ (has s r' n' p' && not (same r n p r' n' p'))
  unfolding has has_in has_pod remove_namespace
  has-remove_namespace none e = ground (arith, text_eq_iff r r', text_eq_iff n n')
  has-remove_namespace (some pods) e = ground (
    arith,
    has-prune_role s r (remove_pod (lookup p pods) ns pods n p) r' n' p',
    has_pod-remove_pod ns pods n p n' p' e (lookup p pods) refl,
    text_eq_iff r r',
  )

has-remove_role :
    (s : RoleStore) (r n p r' n' p' : Text) (found : Option Namespaces)
    → lookup r s.store ≡ found
    → has (remove_role found s r n p) r' n' p' ≡ (has s r' n' p' && not (same r n p r' n' p'))
unfolding remove_role
has-remove_role s r n p r' n' p' none e = unfold has has_in in ground (arith, text_eq_iff r r')
has-remove_role s r n p r' n' p' (some ns) e =
    has-remove_namespace s r ns n p r' n' p' e (lookup n ns) refl

-- `Remove` takes the triple out of the set and changes nothing else, also where `Remove` deletes
-- the namespace or the role.
pub has-remove :
    (s : RoleStore) (r n p r' n' p' : Text)
    → has (remove s r n p) r' n' p' ≡ (has s r' n' p' && not (same r n p r' n' p'))
unfolding remove
has-remove s r n p r' n' p' = has-remove_role s r n p r' n' p' (lookup r s.store) refl

pub has-new_role_store : (r n p : Text) → has new_role_store r n p ≡ false
unfolding has has_in new_role_store lookup
has-new_role_store r n p = refl

some_pod : (pods : Pods) → PodsValid pods → (p : Text) × (has_pod (some pods) p ≡ true)
unfolding has_pod lookup
some_pod [] (u, ne) = absurd (ne refl)
some_pod ((p, tt) ∷ m) v = (p, rw text_eq_refl)

exists_in-has_in :
    (found : Option Namespaces) (n : Text)
    → Holds NamespacesValid found
    → (exists_in found n ≡ true) ↔ ((p : Text) × (has_in found n p ≡ true))
unfolding exists_in has_in
exists_in-has_in none n h = (λ e. absurd (cc), λ e. cc (e.1))
exists_in-has_in (some ns) n (u, ne, vs) = elim (Option-cases (lookup n ns)) [
  | inl e ↦ rw e (unfold has_pod in (λ b. absurd (cc), λ b. cc (b.1)))
  | inr (pods, e) ↦ rw e (λ b. some_pod pods (AllValues-lookup PodsValid n ns vs e), λ b. refl)
]

-- `Exists` says whether some pod uses the role in the namespace, in a store with unique keys
-- in which no role and no namespace is empty.
pub exists-has :
    (s : RoleStore) (r n : Text)
    → StoreValid s
    → (exists s r n ≡ true) ↔ ((p : Text) × (has s r n p ≡ true))
unfolding exists has
exists-has s r n v =
    exists_in-has_in (lookup r s.store) n (AllValues-Holds NamespacesValid r s.store v.1)

exists_in-add_namespace :
    (found : Option Namespaces) (n p n' : Text)
    → exists_in (some (add_namespace found n p)) n' ≡ (text_eq n n' || exists_in found n')
unfolding exists_in add_namespace
exists_in-add_namespace none n p n' = unfold lookup in ground arith
exists_in-add_namespace (some ns) n p n' =
    ground (arith, lookup-insert n n' (add_pod (lookup n ns) p) ns, text_eq_iff n n')

-- After `Add` the role is there in the namespace, and `Exists` has no other new answer.
pub exists-add :
    (s : RoleStore) (r n p r' n' : Text)
    → exists (add s r n p) r' n' ≡ (text_eq r r' && text_eq n n' || exists s r' n')
unfolding exists add
exists-add s r n p r' n' = ground (
  arith,
  lookup-insert r r' (add_namespace (lookup r s.store) n p) s.store,
  exists_in-add_namespace (lookup r s.store) n p n',
  text_eq_iff r r',
)

-- What is found in the store is what `Exists` answers from.
pub exists_of_lookup :
    (s : RoleStore) (r n : Text) (ns : Namespaces) (pods : Pods)
    → lookup r s.store ≡ some ns
    → lookup n ns ≡ some pods
    → exists s r n ≡ true
unfolding exists exists_in
exists_of_lookup s r n ns pods e e' = rw (e, e')
