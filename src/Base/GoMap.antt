-- ===== src/Base/GoMap.antt =====
-- Go's maps with string keys as association lists. A range over a map visits the entries in the
-- order of the list, and the theorems quantify over every list, so over every order.
pub mod Index
use mathlib.Core.Path.{subst}
use kube_aws_iam_controller.Base.Tests.{
  suc, ◌≡◌, ◌≢◌, refl, sym, ap, Option, none, some, arith, if◌then◌else◌, Bool-cases, inl, inr,
  some-eq, Option-cases, Holds,
}
use kube_aws_iam_controller.Base.Lists.{List, [], ◌∷◌, length, All, Member}
use kube_aws_iam_controller.Base.Text.{Text, text_eq, text_eq_iff, text_eq_refl}

abbrev pub GoMap {ℓ} : Type ℓ → Type ℓ
GoMap V = List (Text × V)

module _ {ℓ} {V : Type ℓ} where
  -- `v, ok := m[k]`
  unfoldable pub lookup : Text → GoMap V → Option V
  lookup k [] = none
  lookup k ((j, v) ∷ m) = if text_eq j k then some v else lookup k m

  -- `m[k] = v`
  unfoldable pub insert : Text → V → GoMap V → GoMap V
  insert k v [] = (k, v) ∷ []
  insert k v ((j, w) ∷ m) = if text_eq j k then (k, v) ∷ m else (j, w) ∷ insert k v m

  -- `delete(m, k)`
  unfoldable pub delete : Text → GoMap V → GoMap V
  delete k [] = []
  delete k ((j, w) ∷ m) = let rest = delete k m in if text_eq j k then rest else (j, w) ∷ rest

  -- No key occurs twice, which Go's maps guarantee.
  abbrev pub UniqueKeys : GoMap V → Type ℓ
  UniqueKeys [] = Unit
  UniqueKeys ((k, v) ∷ m) = (lookup k m ≡ none) × UniqueKeys m

  pub lookup-insert :
      (k j : Text) (v : V) (m : GoMap V)
      → lookup j (insert k v m) ≡ (if text_eq k j then some v else lookup j m)
  unfolding lookup insert
  lookup-insert k j v [] = refl
  lookup-insert k j v ((i, w) ∷ m) =
      ground (arith, lookup-insert k j v m, text_eq_iff i k, text_eq_iff i j, text_eq_iff k j)

  -- A new key hides no other.
  pub lookup-insert_new :
      (k j : Text) (v w : V) (m : GoMap V)
      → lookup k m ≡ none
      → lookup j m ≡ some w
      → lookup j (insert k v m) ≡ some w
  lookup-insert_new k j v w m free known = elim (Bool-cases (text_eq k j)) [
    | inl same ↦ absurd (cc (free, known, ap (λ x. lookup x m) ((text_eq_iff k j).0 same)))
    | inr other ↦ rw (lookup-insert k j v m, other) known
  ]

  pub lookup-delete :
      (k j : Text) (m : GoMap V)
      → lookup j (delete k m) ≡ (if text_eq k j then none else lookup j m)
  unfolding lookup delete
  lookup-delete k j [] = ground arith
  lookup-delete k j ((i, w) ∷ m) =
      ground (arith, lookup-delete k j m, text_eq_iff i k, text_eq_iff i j, text_eq_iff k j)

  pub insert-UniqueKeys :
      (k : Text) (v : V) (m : GoMap V) → UniqueKeys m → UniqueKeys (insert k v m)
  unfolding lookup insert
  insert-UniqueKeys k v [] h = (refl, tt)
  insert-UniqueKeys k v ((i, w) ∷ m) (new, h) =
      ground
        (arith, insert-UniqueKeys k v m h, lookup-insert k i v m, text_eq_iff i k, text_eq_iff k i)

  pub delete-UniqueKeys : (k : Text) (m : GoMap V) → UniqueKeys m → UniqueKeys (delete k m)
  unfolding lookup delete
  delete-UniqueKeys k [] h = tt
  delete-UniqueKeys k ((i, w) ∷ m) (new, h) =
      ground (arith, delete-UniqueKeys k m h, lookup-delete k i m, text_eq_iff i k, text_eq_iff k i)

  -- A map of one entry has no key but that entry's.
  pub lookup_of_length_one :
      (k j : Text) (v : V) (m : GoMap V)
      → length m ≡ 1
      → lookup k m ≡ some v
      → lookup j m ≡ (if text_eq k j then some v else none)
  unfolding lookup
  lookup_of_length_one k j v [] one found = cc
  lookup_of_length_one k j v ((i, w) ∷ []) one found =
      ground (arith, text_eq_iff i k, text_eq_iff i j, text_eq_iff k j)
  lookup_of_length_one k j v (e ∷ e' ∷ m) one found = absurd (omega arith)

  pub length-insert-pos : (k : Text) (v : V) (m : GoMap V) → length (insert k v m) ≢ 0
  unfolding insert
  length-insert-pos k v [] = omega arith
  length-insert-pos k v ((i, w) ∷ m) = ground arith

  pub delete_of_lookup-none : (k : Text) (m : GoMap V) → lookup k m ≡ none → delete k m ≡ m
  unfolding lookup delete
  delete_of_lookup-none k [] h = refl
  delete_of_lookup-none k ((i, w) ∷ m) h = ground (arith, delete_of_lookup-none k m)

  pub length-delete :
      (k : Text) (m : GoMap V) (v : V)
      → UniqueKeys m
      → lookup k m ≡ some v
      → suc (length (delete k m)) ≡ length m
  unfolding lookup delete
  length-delete k [] v h found = cc
  length-delete k ((i, w) ∷ m) v (new, h) found = elim (Bool-cases (text_eq i k)) [
    | inl e ↦
        let gone = subst (λ t. lookup t m ≡ none) ((text_eq_iff i k).0 e) new in
        rw (e, delete_of_lookup-none k m gone)
    | inr e ↦ rw e (ap suc (length-delete k m v h (rw e at found)))
  ]

  pub lookup-eq-none_of_length_zero : (k : Text) (m : GoMap V) → length m ≡ 0 → lookup k m ≡ none
  unfolding lookup
  lookup-eq-none_of_length_zero k [] h = refl
  lookup-eq-none_of_length_zero k (e ∷ m) h = absurd (omega arith)

  -- Every value of the map satisfies the predicate.
  module _ {κ} (P : V → Type κ) where
    abbrev pub AllValues : GoMap V → Type κ
    AllValues = All (λ e. P e.1)

    pub AllValues-insert :
        (k : Text) (v : V) (m : GoMap V) → P v → AllValues m → AllValues (insert k v m)
    unfolding insert
    AllValues-insert k v [] pv h = (pv, tt)
    AllValues-insert k v ((i, w) ∷ m) pv (pw, h) = elim (Bool-cases (text_eq i k)) [
      | inl e ↦ rw e (pv, h)
      | inr e ↦ rw e (pw, AllValues-insert k v m pv h)
    ]

    pub AllValues-delete : (k : Text) (m : GoMap V) → AllValues m → AllValues (delete k m)
    unfolding delete
    AllValues-delete k [] h = tt
    AllValues-delete k ((i, w) ∷ m) (pw, h) = elim (Bool-cases (text_eq i k)) [
      | inl e ↦ rw e (AllValues-delete k m h)
      | inr e ↦ rw e (pw, AllValues-delete k m h)
    ]

    pub AllValues-lookup :
        (k : Text) (m : GoMap V) {v : V} → AllValues m → lookup k m ≡ some v → P v
    unfolding lookup
    AllValues-lookup k [] h found = absurd (cc)
    AllValues-lookup k ((i, w) ∷ m) {v} (pw, h) found = elim (Bool-cases (text_eq i k)) [
      | inl e ↦ subst P (some-eq (rw e at found)) pw
      | inr e ↦ AllValues-lookup k m h (rw e at found)
    ]

    pub AllValues-Holds : (k : Text) (m : GoMap V) → AllValues m → Holds P (lookup k m)
    AllValues-Holds k m h = elim (Option-cases (lookup k m)) [
      | inl e ↦ rw e tt
      | inr (v, e) ↦ rw e (AllValues-lookup k m h e)
    ]

-- In a map with unique keys every entry is found under its key.
pub lookup_of_Member :
    {V : Type 0} (k : Text) (v : V) (m : GoMap V)
    → UniqueKeys m
    → Member (k, v) m
    → lookup k m ≡ some v
unfolding lookup
lookup_of_Member k v [] u mem = absurd mem
lookup_of_Member k v ((j, w) ∷ m) (new, u) (inl e) =
    rw (sym (ap (λ p. p.0) e), text_eq_refl, sym (ap (λ p. p.1) e))
lookup_of_Member k v ((j, w) ∷ m) (new, u) (inr mem) =
    let found = lookup_of_Member k v m u mem in
    elim (Bool-cases (text_eq j k)) [
      | inl e ↦
          let same : j ≡ k = (text_eq_iff j k).0 e in
          absurd (cc (found, new, ap (λ x. lookup x m) same))
      | inr e ↦ rw (e, found)
    ]

-- What is found is an entry.
pub Member-of_lookup :
    {V : Type 0} (k : Text) (v : V) (m : GoMap V) → lookup k m ≡ some v → Member (k, v) m
unfolding lookup
Member-of_lookup k v [] found = absurd cc
Member-of_lookup k v ((j, w) ∷ m) found = elim (Bool-cases (text_eq j k)) [
  | inl e ↦ let here : w ≡ v = some-eq (rw e at found) in inl (cc (here, (text_eq_iff j k).0 e))
  | inr e ↦ inr (Member-of_lookup k v m (rw e at found))
]
