-- ===== src/Base/Flow/Reaches.antt =====
-- What a part of a program brings about, unless it panics: one rule for each way to go on.
use kube_aws_iam_controller.Base.Tests.{◌≡◌, refl, ◌⊎◌, inl, inr}
use kube_aws_iam_controller.Base.Lists.{List, [], ◌∷◌, Member}
use kube_aws_iam_controller.Base.Flow.{Flow, next, skip, crash, Step, ◌>>=◌, next_round, for_each}
use kube_aws_iam_controller.Base.Flow.Keeps.{Keeps, Keeps-for_each, bind_from, bind-ensures}

-- `P` holds at the end, or the program has panicked.
abbrev pub Reaches : {S A : Type 0} → (S → Type 0) → Flow A × S → Type 0
Reaches P r = (r.0 ≡ crash) ⊎ P r.1

module _ {S A B : Type 0} (P : S → Type 0) where
  pub next_round-reached :
      (r : Flow A × S) (rest : Step S B)
      → Reaches P r
      → Keeps P rest
      → Reaches P (next_round r rest)
  unfolding next_round
  next_round-reached (next a, w) rest (inl e) k = cc
  next_round-reached (next a, w) rest (inr h) k = inr (k.at w h)
  next_round-reached (skip, w) rest (inl e) k = cc
  next_round-reached (skip, w) rest (inr h) k = inr (k.at w h)
  next_round-reached (crash, w) rest h k = inl refl

  pub next_round-later :
      (r : Flow A × S) (rest : Step S B)
      → ((w : S) → Reaches P (rest w))
      → Reaches P (next_round r rest)
  unfolding next_round
  next_round-later (next a, w) rest h = h w
  next_round-later (skip, w) rest h = h w
  next_round-later (crash, w) rest h = inl refl

  -- The first part brings it about.
  pub bind-reached :
      (m : Step S A) (f : A → Step S B) (w : S)
      → Reaches P (m w)
      → ((a : A) → Keeps P (f a))
      → Reaches P ((m >>= f) w)
  unfolding ◌>>=◌
  bind-reached m f w (inl e) k = inl (rw e refl)
  bind-reached m f w (inr h) k = inr (bind_from m f w h k)

  -- The second part does, and is come to with a value of the kind `Q`.
  pub bind-later :
      (m : Step S A) (f : A → Step S B) (w : S) (Q : A → Type 0)
      → ((m w).0 ≡ skip → ⊥)
      → ((a : A) → (m w).0 ≡ next a → Q a)
      → ((a : A) (w : S) → Q a → Reaches P (f a w))
      → Reaches P ((m >>= f) w)
  bind-later m f w Q goes_on brings h =
      bind-ensures (Reaches P) f m w (λ a e. h a _ (brings a e)) (λ e. absurd (goes_on e))
        (λ e. inl refl)

pub for_each-reached :
    {S X : Type 0} (P : S → Type 0) (x : X) (xs : List X) (body : X → Step S Unit)
    → Member x xs
    → ((w : S) → Reaches P (body x w))
    → ((y : X) → Keeps P (body y))
    → (w : S) → Reaches P (for_each xs body w)
unfolding for_each
for_each-reached P x [] body mem h k w = absurd mem
for_each-reached P x (y ∷ ys) body (inl e) h k w =
    next_round-reached P (body y w) (for_each ys body) (rw (← e) (h w))
      (Keeps-for_each ys body (λ z mem. k z))
for_each-reached P x (y ∷ ys) body (inr mem) h k w =
    next_round-later P (body y w) (for_each ys body) (for_each-reached P x ys body mem h k)
