-- ===== src/Base/Lists.antt =====
-- Lists measured by native numbers, and predicates on all or some of their elements.
pub use mathlib.Core.List.{List, [], ◌∷◌, ◌++◌, map, append-nil, append_assoc}
use kube_aws_iam_controller.Base.Tests.{ℕ, zero, suc, ◌+◌, min, ◌≡◌, ◌⊎◌, refl, inl, inr, arith}

module _ {ℓ} {A : Type ℓ} where
  abbrev pub length : List A → ℕ
  length [] = 0
  length (x ∷ xs) = suc (length xs)

  abbrev pub take : ℕ → List A → List A
  take zero xs = []
  take (suc n) [] = []
  take (suc n) (x ∷ xs) = x ∷ take n xs

  pub length-append : (xs ys : List A) → length (xs ++ ys) ≡ length xs + length ys
  length-append [] ys = omega arith
  length-append (x ∷ xs) ys = omega (arith, length-append xs ys)

  pub length-take : (n : ℕ) (xs : List A) → length (take n xs) ≡ min n (length xs)
  length-take zero xs = omega arith
  length-take (suc n) [] = omega arith
  length-take (suc n) (x ∷ xs) = omega (arith, length-take n xs)

-- Every element satisfies the predicate.
module _ {ℓ κ} {A : Type ℓ} (P : A → Type κ) where
  abbrev pub All : List A → Type κ
  All [] = Unit
  All (x ∷ xs) = P x × All xs

  pub All-append : (xs ys : List A) → All xs → All ys → All (xs ++ ys)
  All-append [] ys _ hy = hy
  All-append (x ∷ xs) ys (px, hx) hy = (px, All-append xs ys hx hy)

  pub All-take : (n : ℕ) (xs : List A) → All xs → All (take n xs)
  All-take zero xs h = tt
  All-take (suc n) [] h = tt
  All-take (suc n) (x ∷ xs) (px, h) = (px, All-take n xs h)

-- Some element satisfies it, with the place kept.
module _ {ℓ} {A : Type ℓ} (P : A → Type 0) where
  abbrev pub Any : List A → Type 0
  Any [] = ⊥
  Any (x ∷ xs) = P x ⊎ Any xs

-- The element is in the list.
abbrev pub Member : {A : Type 0} → A → List A → Type 0
Member x = Any (λ y. x ≡ y)

pub All_of_members :
    {A : Type 0} {P : A → Type 0} (xs : List A) → ((x : A) → Member x xs → P x) → All P xs
All_of_members [] h = tt
All_of_members (x ∷ xs) h = (h x (inl refl), All_of_members xs (λ y mem. h y (inr mem)))

-- The elements of two lists in a row.
module _ {A : Type 0} where
  pub Member-append : (x : A) (xs ys : List A) → Member x xs → Member x (xs ++ ys)
  Member-append x [] ys mem = absurd mem
  Member-append x (y ∷ xs) ys (inl e) = inl e
  Member-append x (y ∷ xs) ys (inr mem) = inr (Member-append x xs ys mem)

  pub Member-last : (x : A) (xs : List A) → Member x (xs ++ x ∷ [])
  Member-last x [] = inl refl
  Member-last x (y ∷ xs) = inr (Member-last x xs)

  pub Member-appended :
      (x : A) (xs : List A) (y : A) → Member x (xs ++ y ∷ []) → Member x xs ⊎ (x ≡ y)
  Member-appended x [] y (inl e) = inr e
  Member-appended x [] y (inr mem) = absurd mem
  Member-appended x (z ∷ xs) y (inl e) = inl (inl e)
  Member-appended x (z ∷ xs) y (inr mem) = elim (Member-appended x xs y mem) [
    | inl before ↦ inl (inr before)
    | inr e ↦ inr e
  ]
