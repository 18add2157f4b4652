-- ===== src/Base/Outcome.antt =====
-- What a Go call gives back: a value, an error (by the text that `%v` prints) or a panic.
use kube_aws_iam_controller.Base.Tests.{◌≡◌, refl, ◌⊎◌, inl, inr}
use kube_aws_iam_controller.Base.Text.{Text}

pub data Outcome {ℓ} (A : Type ℓ) : Type ℓ where
  ok : A → Outcome A
  err : Text → Outcome A
  panic : Outcome A

-- A value, or one of the two failures.
pub Outcome-cases {ℓ} :
    {A : Type ℓ} (o : Outcome A)
    → ((a : A) × (o ≡ ok a)) ⊎ (((e : Text) × (o ≡ err e)) ⊎ (o ≡ panic))
Outcome-cases (ok a) = inl (a, refl)
Outcome-cases (err e) = inr (inl (e, refl))
Outcome-cases panic = inr (inr refl)

pub ok_eq {ℓ} : {A : Type ℓ} {a b : A} → ok a ≡ ok b → a ≡ b
ok_eq e = cc
