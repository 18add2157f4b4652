-- ===== src/Base/GoMap/Index.antt =====
-- A map of the elements of a list by a key, as the loops over listed objects build it.
use kube_aws_iam_controller.Base.Tests.{
  ◌≡◌, ◌≢◌, refl, sym, ap, none, some, arith, Bool-cases, inl, inr, some-eq, ◌∙◌, ◌⊎◌,
}
use kube_aws_iam_controller.Base.Lists.{List, [], ◌∷◌, Member}
use kube_aws_iam_controller.Base.Text.{Text, text_eq, text_eq_iff, text_eq_refl}
use kube_aws_iam_controller.Base.GoMap.{GoMap, lookup, insert, lookup-insert}

lookup-insert_cases :
    {X : Type 0} (k j : Text) (y x : X) (m : GoMap X)
    → lookup k (insert j y m) ≡ some x
    → ((x ≡ y) × (j ≡ k)) ⊎ (lookup k m ≡ some x)
lookup-insert_cases k j y x m h = elim (Bool-cases (text_eq j k)) [
  | inl e ↦ inl (sym (some-eq (rw (lookup-insert j k y m, e) at h)), (text_eq_iff j k).0 e)
  | inr e ↦ inr (rw (lookup-insert j k y m, e) at h)
]

lookup-insert_ne-none :
    {X : Type 0} (k j : Text) (y : X) (m : GoMap X)
    → lookup k m ≢ none
    → lookup k (insert j y m) ≢ none
lookup-insert_ne-none k j y m h =
    rw (lookup-insert j k y m)
      (elim (Bool-cases (text_eq j k)) [ inl e ↦ rw e (λ p. cc) | inr e ↦ rw e h ])

-- `for _, x := range xs { m[key(x)] = x }`
module _ {X : Type 0} (key : X → Text) where
  unfoldable pub index_by : List X → GoMap X → GoMap X
  index_by [] m = m
  index_by (x ∷ xs) m = index_by xs (insert (key x) x m)

  -- No two elements have the same key.
  abbrev pub DistinctKeys : List X → Type 0
  DistinctKeys [] = Unit
  DistinctKeys (x ∷ xs) = ((y : X) → Member y xs → key y ≢ key x) × DistinctKeys xs

  -- What is found was an element with that key, or there before.
  pub lookup-index_by_sound :
      (k : Text) (xs : List X) (m : GoMap X) (x : X)
      → lookup k (index_by xs m) ≡ some x
      → (Member x xs × (key x ≡ k)) ⊎ (lookup k m ≡ some x)
  unfolding index_by
  lookup-index_by_sound k [] m x h = inr h
  lookup-index_by_sound k (y ∷ ys) m x h =
      elim (lookup-index_by_sound k ys (insert (key y) y m) x h) [
        | inl (mem, e) ↦ inl (inr mem, e)
        | inr e ↦ elim (lookup-insert_cases k (key y) y x m e) [
          | inl (here, same) ↦ inl (inl here, ap key here ∙ same)
          | inr before ↦ inr before
        ]
      ]

  -- Elements with other keys are passed over.
  pub lookup-index_by_ne :
      (k : Text) (xs : List X) (m : GoMap X)
      → ((y : X) → Member y xs → key y ≢ k)
      → lookup k (index_by xs m) ≡ lookup k m
  unfolding index_by
  lookup-index_by_ne k [] m ne = refl
  lookup-index_by_ne k (y ∷ ys) m ne =
      lookup-index_by_ne k ys (insert (key y) y m) (λ z mem. ne z (inr mem))
      ∙ ground (arith, lookup-insert (key y) k y m, text_eq_iff (key y) k, ne y (inl refl))

  -- Under the key of an element something is found.
  pub lookup-index_by_some :
      (k : Text) (xs : List X) (m : GoMap X)
      → ((x : X) × Member x xs × (key x ≡ k)) ⊎ (lookup k m ≢ none)
      → lookup k (index_by xs m) ≢ none
  unfolding index_by
  lookup-index_by_some k [] m (inl (x, mem, e)) = absurd mem
  lookup-index_by_some k [] m (inr h) = h
  lookup-index_by_some k (y ∷ ys) m (inl (x, inl here, e)) =
      lookup-index_by_some k ys (insert (key y) y m) (
        inr (
          rw (lookup-insert (key y) k y m, (text_eq_iff (key y) k).1 (ap key (sym here) ∙ e))
            (λ p. cc)))
  lookup-index_by_some k (y ∷ ys) m (inl (x, inr mem, e)) =
      lookup-index_by_some k ys (insert (key y) y m) (inl (x, mem, e))
  lookup-index_by_some k (y ∷ ys) m (inr h) =
      lookup-index_by_some k ys (insert (key y) y m) (inr (lookup-insert_ne-none k (key y) y m h))

  -- With distinct keys it is the element itself.
  pub lookup-index_by_self :
      (xs : List X) (m : GoMap X) (x : X)
      → DistinctKeys xs
      → Member x xs
      → lookup (key x) (index_by xs m) ≡ some x
  unfolding index_by
  lookup-index_by_self [] m x d mem = absurd mem
  lookup-index_by_self (y ∷ ys) m x (new, d) (inl e) =
      rw (e, lookup-index_by_ne (key y) ys (insert (key y) y m) new, lookup-insert, text_eq_refl)
  lookup-index_by_self (y ∷ ys) m x (new, d) (inr mem) =
      lookup-index_by_self ys (insert (key y) y m) x d mem
