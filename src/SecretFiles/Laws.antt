-- ===== src/SecretFiles/Laws.antt =====
-- Laws of the labels, the owner references and the generation of a secret.
use kube_aws_iam_controller.Base.Tests.{
  ◌≡◌, refl, Option, none, some, true, arith, ◌↔◌, ap, Bool-cases, inl, inr,
}
use kube_aws_iam_controller.Base.Lists.{List, [], ◌∷◌, Any}
use kube_aws_iam_controller.Base.Int.{ℤ}
use kube_aws_iam_controller.Base.Outcome.{ok}
use kube_aws_iam_controller.Base.Text.{Text, text_eq_iff, text_eq_refl}
use kube_aws_iam_controller.Base.GoMap.{GoMap, UniqueKeys, lookup, insert, lookup-insert}
use kube_aws_iam_controller.Decimal.RoundTrip.{IsInt64, parse_int-format_int}
use kube_aws_iam_controller.Kube.Types.{TypeMeta, ObjectMeta, OwnerReference, SecretData}
use kube_aws_iam_controller.SecretFiles.{
  insert_all, merge_labels, is_reference, any_reference, is_owned_reference, generation_of,
  get_generation, lookup_data, with_generation,
}

-- The first of two options that holds a value.
abbrev pub or_else : Option Text → Option Text → Option Text
or_else none other = other
or_else (some v) other = some v

or_else_none : (k : Text) (o : Option Text) → or_else o (lookup k []) ≡ o
unfolding lookup
or_else_none k none = refl
or_else_none k (some v) = refl

lookup-insert_all :
    (more labels : GoMap Text) (k : Text)
    → UniqueKeys more
    → lookup k (insert_all more labels) ≡ or_else (lookup k more) (lookup k labels)
unfolding insert_all lookup
lookup-insert_all [] labels k u = refl
lookup-insert_all ((j, v) ∷ more) labels k (new, u) = ground (
  arith,
  lookup-insert_all more (insert j v labels) k u,
  lookup-insert j k v labels,
  text_eq_iff j k,
)

-- A merged label has the value of the additional labels, if they have the key, and that of the base
-- otherwise; no other key is there. Both maps have unique keys.
pub lookup-merge_labels :
    (base additional : GoMap Text) (k : Text)
    → UniqueKeys base
    → UniqueKeys additional
    → lookup k (merge_labels base additional) ≡ or_else (lookup k additional) (lookup k base)
unfolding merge_labels
lookup-merge_labels base additional k ub ua =
    rw (lookup-insert_all additional (insert_all base []) k ua, lookup-insert_all base [] k ub)
      (ap (or_else (lookup k additional)) (or_else_none k (lookup k base)))

-- The reference names the owner by its type, its identity and its name.
pub record References (owner_type_meta : TypeMeta) (owner : ObjectMeta) (ref : OwnerReference)
    : Type 0 where
  pub api_version : ref.api_version ≡ owner_type_meta.api_version
  pub kind : ref.kind ≡ owner_type_meta.kind
  pub uid : ref.uid ≡ owner.uid
  pub name : ref.name ≡ owner.name

is_reference-References :
    (t : TypeMeta) (owner : ObjectMeta) (ref : OwnerReference)
    → (is_reference t owner ref ≡ true) ↔ References t owner ref
unfolding is_reference
is_reference-References t owner ref = ground (
  arith,
  text_eq_iff ref.api_version t.api_version,
  text_eq_iff ref.kind t.kind,
  text_eq_iff ref.uid owner.uid,
  text_eq_iff ref.name owner.name,
)

any_reference-Any :
    (t : TypeMeta) (owner : ObjectMeta) (refs : List OwnerReference)
    → (any_reference t owner refs ≡ true) ↔ Any (References t owner) refs
unfolding any_reference
any_reference-Any t owner [] = (λ e. cc, λ h. absurd h)
any_reference-Any t owner (ref ∷ refs) =
    let (there, back) = is_reference-References t owner ref in
    let (there', back') = any_reference-Any t owner refs in
    elim (Bool-cases (is_reference t owner ref)) [
      | inl e ↦ rw e (λ _. inl (there e), λ _. refl)
      | inr e ↦ rw e (λ h. inr (there' h), λ h. elim h [ inl r ↦ cc (back r) | inr r ↦ back' r ])
    ]

-- A dependent object counts as owned exactly if one of its owner references names the owner by
-- type, kind, identity and name.
pub is_owned_reference-Any :
    (t : TypeMeta) (owner dependent : ObjectMeta)
    → (is_owned_reference t owner dependent ≡ true)
      ↔ Any (References t owner) dependent.owner_references
unfolding is_owned_reference
is_owned_reference-Any t owner dependent = any_reference-Any t owner dependent.owner_references

-- A generation that is put into the data of a secret is read back, for every `int64`.
pub get_generation-with_generation :
    (generation : ℤ) (data_map : SecretData)
    → IsInt64 generation
    → get_generation (some (with_generation generation data_map)) ≡ ok generation
unfolding get_generation generation_of lookup_data with_generation
get_generation-with_generation generation data_map h =
    rw (lookup-insert, text_eq_refl) (parse_int-format_int generation h)
