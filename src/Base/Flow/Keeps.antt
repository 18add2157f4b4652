-- ===== src/Base/Flow/Keeps.antt =====
-- Invariants of the world: one rule for each way to build the body of a loop.
use kube_aws_iam_controller.Base.Tests.{◌≡◌, refl, Bool, true, false, if◌then◌else◌, inl, inr}
use kube_aws_iam_controller.Base.Lists.{List, [], ◌∷◌, Member}
use kube_aws_iam_controller.Base.Outcome.{Outcome, ok, err, panic}
use kube_aws_iam_controller.Base.Text.{Text}
use kube_aws_iam_controller.Base.Flow.{
  Flow, next, skip, crash, Step, Call, done, failed_by, attempt, effect, then_step, ◌>>=◌,
  next_round, for_each,
}

-- However `m` ends, it keeps `P`.
pub record Keeps {S A : Type 0} (P : S → Type 0) (m : Step S A) : Type 0 where
  pub at : (s : S) → P s → P (m s).1

-- The same of a call of a service.
pub record CallKeeps {S A : Type 0} (P : S → Type 0) (m : Call S A) : Type 0 where
  pub at : (s : S) → P s → P (m s).1

pub record EffectKeeps {S : Type 0} (P : S → Type 0) (f : S → S) : Type 0 where
  pub at : (s : S) → P s → P (f s)

module _ {S A : Type 0} {P : S → Type 0} where
  pub Keeps-done : (a : A) → Keeps P (done a)
  unfolding done
  Keeps-done a = record { at = λ s h. h }

  failed_by-Keeps :
      (r : Outcome A) (failed : Text → S → S)
      → ((e : Text) → EffectKeeps P (failed e))
      → Keeps P (failed_by r failed)
  unfolding failed_by
  failed_by-Keeps (ok a) failed k = record { at = λ s h. h }
  failed_by-Keeps (err e) failed k = record { at = (k e).at }
  failed_by-Keeps panic failed k = record { at = λ s h. h }

  -- What the call itself establishes holds at the end of the attempt.
  pub attempt_from :
      (call : Call S A) (failed : Text → S → S) (s : S)
      → P (call s).1
      → ((e : Text) → EffectKeeps P (failed e))
      → P (attempt call failed s).1
  unfolding attempt
  attempt_from call failed s h kf = (failed_by-Keeps (call s).0 failed kf).at (call s).1 h

  pub Keeps-attempt :
      (call : Call S A) (failed : Text → S → S)
      → CallKeeps P call
      → ((e : Text) → EffectKeeps P (failed e))
      → Keeps P (attempt call failed)
  Keeps-attempt call failed kc kf = record { at = λ s h. attempt_from call failed s (kc.at s h) kf }

  pub Keeps-if :
      (test : Bool) (one other : Step S A)
      → (test ≡ true → Keeps P one)
      → (test ≡ false → Keeps P other)
      → Keeps P (if test then one else other)
  Keeps-if true one other yes_keeps no_keeps = yes_keeps refl
  Keeps-if false one other yes_keeps no_keeps = no_keeps refl

  -- A pure function in the place of a call.
  pub CallKeeps-pure : (r : Outcome A) → CallKeeps P (λ s. (r, s))
  CallKeeps-pure r = record { at = λ s h. h }

module _ {S : Type 0} {P : S → Type 0} where
  pub EffectKeeps-id : EffectKeeps P (λ s. s)
  EffectKeeps-id = record { at = λ s h. h }

  pub Keeps-effect : (f : S → S) → EffectKeeps P f → Keeps P (effect f)
  unfolding effect
  Keeps-effect f k = record { at = k.at }

module _ {S A B : Type 0} {P : S → Type 0} where
  then_step-Keeps :
      (r : Flow A) (f : A → Step S B) → ((a : A) → Keeps P (f a)) → Keeps P (then_step r f)
  then_step-Keeps (next a) f k = k a
  then_step-Keeps skip f k = record { at = λ s h. h }
  then_step-Keeps crash f k = record { at = λ s h. h }

  -- What holds after the first part holds at the end.
  pub bind_from :
      (before : Step S A) (after : A → Step S B) (s : S)
      → P (before s).1
      → ((a : A) → Keeps P (after a))
      → P ((before >>= after) s).1
  unfolding ◌>>=◌
  bind_from before after s h rest_keep =
      (then_step-Keeps (before s).0 after rest_keep).at (before s).1 h

  pub Keeps-bind :
      (before : Step S A) (after : A → Step S B)
      → Keeps P before
      → ((a : A) → Keeps P (after a))
      → Keeps P (before >>= after)
  Keeps-bind before after first_keeps rest_keep = record {
    at = λ s h. bind_from before after s (first_keeps.at s h) rest_keep;
  }

  -- A call whose result is only looked at.
  pub CallKeeps-map :
      (call : Call S A) (f : Outcome A → Outcome B)
      → CallKeeps P call
      → CallKeeps P (λ s. let (r, s') = call s in (f r, s'))
  CallKeeps-map call f k = record { at = k.at }

  pub next_round-keeps :
      (r : Flow A × S) (rest : Step S B) → P r.1 → Keeps P rest → P (next_round r rest).1
  unfolding next_round
  next_round-keeps (next a, s) rest h k = k.at s h
  next_round-keeps (skip, s) rest h k = k.at s h
  next_round-keeps (crash, s) rest h k = h

-- A statement about the end of a sequence: one case for each way in which its first part ends.
module _ {S A B : Type 0} (Q : Flow B × S → Type 0) (f : A → Step S B) where
  then_step-ensures :
      (r : Flow A) (s : S)
      → ((a : A) → r ≡ next a → Q (f a s))
      → (r ≡ skip → Q (skip, s))
      → (r ≡ crash → Q (crash, s))
      → Q (then_step r f s)
  then_step-ensures (next a) s n k c = n a refl
  then_step-ensures skip s n k c = k refl
  then_step-ensures crash s n k c = c refl

  pub bind-ensures :
      (m : Step S A) (s : S)
      → ((a : A) → (m s).0 ≡ next a → Q (f a (m s).1))
      → ((m s).0 ≡ skip → Q (skip, (m s).1))
      → ((m s).0 ≡ crash → Q (crash, (m s).1))
      → Q ((m >>= f) s)
  unfolding ◌>>=◌
  bind-ensures m s n k c = then_step-ensures (m s).0 (m s).1 n k c

-- The same for a statement about the end of the loop.
pub next_round-ensures :
    {S A B : Type 0} {P : S → Type 0} (Q : Flow B × S → Type 0) (r : Flow A × S) (rest : Step S B)
    → P r.1
    → ((s : S) → P s → Q (rest s))
    → ((s : S) → P s → Q (crash, s))
    → Q (next_round r rest)
unfolding next_round
next_round-ensures Q (next a, s) rest h k stop = k s h
next_round-ensures Q (skip, s) rest h k stop = k s h
next_round-ensures Q (crash, s) rest h k stop = stop s h

module _ {S X : Type 0} {P : S → Type 0} where
  pub Keeps-for_each :
      (xs : List X) (body : X → Step S (Unit {0}))
      → ((x : X) → Member x xs → Keeps P (body x))
      → Keeps P (for_each xs body)
  unfolding for_each
  Keeps-for_each [] body k = record { at = λ s h. h }
  Keeps-for_each (x ∷ xs) body k = record {
    at = λ s h.
        next_round-keeps (body x s) (for_each xs body) ((k x (inl refl)).at s h)
          (Keeps-for_each xs body (λ y m. k y (inr m)));
  }

pub ruleset keeps_rules =
    (Keeps-done, Keeps-attempt, Keeps-effect, Keeps-bind, CallKeeps-pure, EffectKeeps-id)
