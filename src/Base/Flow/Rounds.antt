-- ===== src/Base/Flow/Rounds.antt =====
-- Loops whose rounds do not panic: what every round brings about, and what each of them keeps.
use kube_aws_iam_controller.Base.Tests.{◌≡◌, refl, ◌∙◌, ◌⊎◌, inl, inr}
use kube_aws_iam_controller.Base.Lists.{List, [], ◌∷◌, Member}
use kube_aws_iam_controller.Base.Outcome.{ok, err}
use kube_aws_iam_controller.Base.Text.{Text}
use kube_aws_iam_controller.Base.Flow.{
  Flow, next, skip, Step, Call, attempt, failed_by, for_each, next_round,
}

-- The round is over without a panic.
abbrev pub Over : {S A : Type 0} → A → S → Flow A × S → Type 0
Over a s r = (r ≡ (next a, s)) ⊎ (r ≡ (skip, s))

module _ {S A : Type 0} where
  pub attempt_of_ok :
      (call : Call S A) (failed : Text → S → S) (s : S) (a : A)
      → (call s).0 ≡ ok a
      → attempt call failed s ≡ (next a, (call s).1)
  unfolding attempt failed_by
  attempt_of_ok call failed s a e = rw e refl

  pub attempt_of_err :
      (call : Call S A) (failed : Text → S → S) (s : S) (m : Text)
      → (call s).0 ≡ err m
      → attempt call failed s ≡ (skip, failed m (call s).1)
  unfolding attempt failed_by
  attempt_of_err call failed s m e = rw e refl

module _ {S X : Type 0} (Inv : S → Type 0) (Grows : S → S → Type 0) (Done : X → S → Type 0) where
  -- A round keeps the invariant and what is done, and does its own element.
  pub record Rounds (body : X → Step S (Unit {0})) (x : X) (s : S) : Type 0 where
    pub after : S
    pub over : Over tt after (body x s)
    pub sound : Inv after
    pub grown : Grows s after
    pub achieved : Done x after

  pub record AllDone (xs : List X) (body : X → Step S (Unit {0})) (s : S) : Type 0 where
    pub after : S
    pub over : for_each xs body s ≡ (next tt, after)
    pub sound : Inv after
    pub grown : Grows s after
    pub achieved : (x : X) → Member x xs → Done x after

pub next_round-Over :
    {S B : Type 0} (s : S) (r : Flow (Unit {0}) × S) (rest : Step S B)
    → Over tt s r
    → next_round r rest ≡ rest s
unfolding next_round
next_round-Over s r rest (inl e) = rw e refl
next_round-Over s r rest (inr e) = rw e refl

module _ {S X : Type 0} (Inv : S → Type 0) (Grows : S → S → Type 0) (Done : X → S → Type 0)
    (same : (s : S) → Grows s s) (onward : (r s t : S) → Grows r s → Grows s t → Grows r t)
    (lasting : (x : X) (s t : S) → Grows s t → Done x s → Done x t) where
  pub for_each-AllDone :
      (xs : List X) (body : X → Step S (Unit {0})) (s : S)
      → ((x : X) → Member x xs → (s : S) → Inv s → Rounds Inv Grows Done body x s)
      → Inv s
      → AllDone Inv Grows Done xs body s
  unfolding for_each
  for_each-AllDone [] body s round h = record {
    after = s;
    over = refl;
    sound = h;
    grown = same s;
    achieved = λ x mem. absurd mem;
  }
  for_each-AllDone (x ∷ xs) body s round h =
      let first = round x (inl refl) s h in
      let rest = for_each-AllDone xs body first.after (λ y mem. round y (inr mem)) first.sound in
      record {
        after = rest.after;
        over = next_round-Over first.after (body x s) (for_each xs body) first.over ∙ rest.over;
        sound = rest.sound;
        grown = onward s first.after rest.after first.grown rest.grown;
        achieved = λ y mem. elim mem [
          | inl e ↦ rw e (lasting x first.after rest.after rest.grown first.achieved)
          | inr later ↦ rest.achieved y later
        ];
      }
