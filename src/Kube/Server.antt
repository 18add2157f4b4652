-- ===== src/Kube/Server.antt =====
-- The API server while no other client writes: what it holds of the secrets that a controller lists,
-- and how the calls change that. These are the documented effects of list, create, update and delete;
-- the theorems that use them name them as a hypothesis.
use kube_aws_iam_controller.Base.Tests.{◌≡◌, ◌≢◌, sym, ◌∙◌, some, ◌⊎◌, inl, inr, Bool-cases}
use kube_aws_iam_controller.Base.Lists.{List, [], ◌∷◌, Member}
use kube_aws_iam_controller.Base.Outcome.{ok, err, panic}
use kube_aws_iam_controller.Base.Text.{Text, text_eq, text_eq_iff}
use kube_aws_iam_controller.Base.GoMap.{GoMap, lookup}
use kube_aws_iam_controller.Kube.Types.{Secret}
use kube_aws_iam_controller.Kube.Cluster.{Cluster}

-- Two secrets of the same namespace and name.
pub record SameKey (x y : Secret) : Type 0 where
  pub same_namespace : x.namespace ≡ y.namespace
  pub same_name : x.name ≡ y.name

pub same_key : (x y : Secret) → SameKey x y ⊎ (¬ SameKey x y)
same_key x y = elim (Bool-cases (text_eq x.namespace y.namespace)) [
  | inl e ↦ elim (Bool-cases (text_eq x.name y.name)) [
    | inl e' ↦ inl (record {
      same_namespace = (text_eq_iff x.namespace y.namespace).0 e;
      same_name = (text_eq_iff x.name y.name).0 e';
    })
    | inr e' ↦ inr (λ k. cc ((text_eq_iff x.name y.name).1 k.same_name))
  ]
  | inr e ↦ inr (λ k. cc ((text_eq_iff x.namespace y.namespace).1 k.same_namespace))
]

-- What is held of a secret that was sent; the server sets the other fields.
pub record IsStored (x y : Secret) : Type 0 where
  pub same_namespace : y.namespace ≡ x.namespace
  pub same_name : y.name ≡ x.name
  pub same_labels : y.labels ≡ x.labels
  pub same_owners : y.owner_references ≡ x.owner_references
  pub same_data : y.data_map ≡ x.data_map

-- The secret is there, in place of one of its key; the others are untouched.
pub record Wrote (x : Secret) (before after : List Secret) : Type 0 where
  pub there : (y : Secret) × Member y after × IsStored x y
  pub new_or_old :
      (y : Secret) → Member y after → IsStored x y ⊎ (Member y before × (¬ SameKey x y))
  pub kept : (y : Secret) → Member y before → ¬ SameKey x y → Member y after

-- A write takes no key away.
pub Wrote-keeps :
    (w x : Secret) (before after : List Secret)
    → Wrote w before after
    → (y : Secret) × Member y before × SameKey x y
    → (y : Secret) × Member y after × SameKey x y
Wrote-keeps w x before after h (y, mem, k) = elim (same_key w y) [
  | inl k' ↦
      let (z, mem', stored) = h.there in
      (
        z,
        mem',
        record {
          same_namespace = k.same_namespace ∙ sym k'.same_namespace ∙ sym stored.same_namespace;
          same_name = k.same_name ∙ sym k'.same_name ∙ sym stored.same_name;
        },
      )
  | inr other ↦ (y, h.kept y mem other, k)
]

-- No secret of the key is there any more; the others are untouched.
pub record Removed (namespace name : Text) (before after : List Secret) : Type 0 where
  pub gone :
      (y : Secret)
      → Member y after
      → Member y before × (¬ ((y.namespace ≡ namespace) × (y.name ≡ name)))
  pub kept :
      (y : Secret)
      → Member y before
      → ¬ ((y.namespace ≡ namespace) × (y.name ≡ name))
      → Member y after

-- The namespace, or all of them if it is empty, and the labels select the secret.
pub record IsSelected (namespace : Text) (labels : GoMap Text) (x : Secret) : Type 0 where
  pub in_scope : (namespace ≡ []) ⊎ (namespace ≡ x.namespace)
  pub labelled : (k v : Text) → lookup k labels ≡ some v → lookup k x.labels ≡ some v

-- No two secrets of the list have the same key.
abbrev pub DistinctKeys : List Secret → Type 0
DistinctKeys [] = Unit
DistinctKeys (x ∷ xs) = ((y : Secret) → Member y xs → ¬ SameKey x y) × DistinctKeys xs

-- `held` are the secrets that the namespace and the labels select; they are neither immutable nor have
-- finalizers. An update fails only where no secret of the key is held with the resource version that
-- was sent. A creation fails only where a held secret has the key, or where the server refuses it: the
-- name is not a valid one, a secret without the labels has it, or the namespace is not there.
pub record Serves {S : Type 0} (client : Cluster S) (namespace : Text) (labels : GoMap Text)
    (Refuses : Text → Text → Type 0) (held : S → List Secret) : Type 0 where
  pub lists : (s : S) → client.list_secrets namespace labels s ≡ (ok (held s), s)
  pub selected : (s : S) (x : Secret) → Member x (held s) → IsSelected namespace labels x
  pub reads_clock : (s : S) → held (client.now s).1 ≡ held s
  pub updates :
      (s : S) (x : Secret)
      → IsSelected namespace labels x
      → let r = client.update_secret x.namespace x s in
        ((r.0 ≡ ok tt) × Wrote x (held s) (held r.1))
        ⊎ ((e : Text) × (r.0 ≡ err e)
            × ((y : Secret)
                → Member y (held s)
                → SameKey x y
                → y.resource_version ≢ x.resource_version)
            × (held r.1 ≡ held s))
  pub creates :
      (s : S) (x : Secret)
      → IsSelected namespace labels x
      → let r = client.create_secret x.namespace x s in
        ((r.0 ≡ ok tt) × Wrote x (held s) (held r.1))
        ⊎ ((e : Text) × (r.0 ≡ err e)
            × (((y : Secret) × Member y (held s) × SameKey x y) ⊎ Refuses x.namespace x.name)
            × (held r.1 ≡ held s))
  pub deletes :
      (s : S) (target_namespace name : Text)
      → let r = client.delete_secret target_namespace name s in
        (r.0 ≢ panic) × Removed target_namespace name (held s) (held r.1)
