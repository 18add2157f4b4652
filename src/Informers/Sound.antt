-- ===== src/Informers/Sound.antt =====
-- What holds of the factory between two operations, and that each of them keeps it.
use kube_aws_iam_controller.Base.Tests.{
  ◌≤◌, ◌≡◌, refl, none, some, Bool, true, false, if◌then◌else◌, arith, inl, inr, Bool-cases, ◌∙◌,
}
use kube_aws_iam_controller.Base.Lists.{[], ◌∷◌, length, Member}
use kube_aws_iam_controller.Base.Text.{Text, text_eq, text_eq_iff}
use kube_aws_iam_controller.Base.GoMap.{GoMap, lookup, lookup-insert, UniqueKeys, lookup_of_Member}
use kube_aws_iam_controller.Informers.Types.{Factory}
use kube_aws_iam_controller.Informers.{
  is_started, launch, start_one, start_each, start, shut_down, one_done,
}

module _ {C T F I : Type 0} where
  -- No type of informers is launched twice; a type counts as started exactly if it was launched, and
  -- then with the informer that is registered for it; no more goroutines run than were launched.
  pub record IsSound (f : Factory C T F I) : Type 0 where
    pub registered_once : UniqueKeys f.informers
    pub launched_once : UniqueKeys f.launched
    pub started_launched :
        (t : Text) → is_started t f ≡ true → (i : I) × (lookup t f.launched ≡ some i)
    pub launched_started : (t : Text) → is_started t f ≡ false → lookup t f.launched ≡ none
    pub launched_registered :
        (t : Text) (i : I) → lookup t f.launched ≡ some i → lookup t f.informers ≡ some i
    pub wg_bounded : f.wg ≤ length f.launched

  pub is_started-launch :
      (t k : Text) (i : I) (f : Factory C T F I)
      → is_started k (launch t i f) ≡ (if text_eq t k then true else is_started k f)
  unfolding is_started launch
  is_started-launch t k i f = ground (arith, lookup-insert t k true f.started_informers)

  started-launch :
      (t k : Text) (i : I) (f : Factory C T F I)
      → IsSound f
      → is_started k (launch t i f) ≡ true
      → (j : I) × (lookup k (launch t i f).launched ≡ some j)
  unfolding launch lookup
  started-launch t k i f v e = elim (Bool-cases (text_eq t k)) [
    | inl same ↦ rw same (i, refl)
    | inr other ↦ rw other (v.started_launched k (rw (is_started-launch t k i f, other) at e))
  ]

  unstarted-launch :
      (t k : Text) (i : I) (f : Factory C T F I)
      → IsSound f
      → is_started k (launch t i f) ≡ false
      → lookup k (launch t i f).launched ≡ none
  unfolding launch lookup
  unstarted-launch t k i f v e = elim (Bool-cases (text_eq t k)) [
    | inl same ↦ cc (rw (is_started-launch t k i f, same) at e)
    | inr other ↦ rw other (v.launched_started k (rw (is_started-launch t k i f, other) at e))
  ]

  registered-launch :
      (t k : Text) (i j : I) (f : Factory C T F I)
      → lookup t f.informers ≡ some i
      → IsSound f
      → lookup k (launch t i f).launched ≡ some j
      → lookup k f.informers ≡ some j
  unfolding launch lookup
  registered-launch t k i j f known v e = elim (Bool-cases (text_eq t k)) [
    | inl same ↦ rw (← (text_eq_iff t k).0 same) (known ∙ (rw same at e))
    | inr other ↦ v.launched_registered k j (rw other at e)
  ]

  launch-IsSound :
      (t : Text) (i : I) (f : Factory C T F I)
      → lookup t f.informers ≡ some i
      → is_started t f ≡ false
      → IsSound f
      → IsSound (launch t i f)
  unfolding launch lookup
  launch-IsSound t i f known new v = record {
    registered_once = v.registered_once;
    launched_once = (v.launched_started t new, v.launched_once);
    started_launched = λ k e. started-launch t k i f v e;
    launched_started = λ k e. unstarted-launch t k i f v e;
    launched_registered = λ k j e. registered-launch t k i j f known v e;
    wg_bounded = omega (arith, v.wg_bounded);
  }

  start_one-IsSound :
      (t : Text) (i : I) (f : Factory C T F I)
      → lookup t f.informers ≡ some i
      → IsSound f
      → IsSound (start_one t i f)
  unfolding start_one
  start_one-IsSound t i f known v = elim (Bool-cases (is_started t f)) [
    | inl old ↦ rw old v
    | inr new ↦ rw new (launch-IsSound t i f known new v)
  ]

  -- Starting changes neither the registered informers nor the flag.
  start_one-informers :
      (t : Text) (i : I) (f : Factory C T F I) → (start_one t i f).informers ≡ f.informers
  unfolding start_one launch
  start_one-informers t i f = elim (Bool-cases (is_started t f)) [
    | inl old ↦ rw old refl
    | inr new ↦ rw new refl
  ]

  pub start_each-informers :
      (m : GoMap I) (f : Factory C T F I) → (start_each m f).informers ≡ f.informers
  unfolding start_each
  start_each-informers [] f = refl
  start_each-informers ((t, i) ∷ m) f =
      start_each-informers m (start_one t i f) ∙ start_one-informers t i f

  start_each-IsSound :
      (m : GoMap I) (f : Factory C T F I)
      → ((t : Text) (i : I) → Member (t, i) m → lookup t f.informers ≡ some i)
      → IsSound f
      → IsSound (start_each m f)
  unfolding start_each
  start_each-IsSound [] f known v = v
  start_each-IsSound ((t, i) ∷ m) f known v =
      start_each-IsSound m (start_one t i f)
        (λ k j mem. rw (start_one-informers t i f) (known k j (inr mem)))
        (start_one-IsSound t i f (known t i (inl refl)) v)

  -- Whichever branch is taken.
  if-IsSound :
      (b : Bool) (f g : Factory C T F I) → IsSound f → IsSound g → IsSound (if b then f else g)
  if-IsSound true f g v w = v
  if-IsSound false f g v w = w

  pub start-IsSound : (f : Factory C T F I) → IsSound f → IsSound (start f)
  unfolding start
  start-IsSound f v =
      let known = λ (t : Text) (i : I) (mem : Member (t, i) f.informers).
        lookup_of_Member t i f.informers v.registered_once mem in
      if-IsSound f.shutting_down f (start_each f.informers f) v
        (start_each-IsSound f.informers f known v)

  pub shut_down-IsSound : (f : Factory C T F I) → IsSound f → IsSound (shut_down f)
  unfolding shut_down is_started
  shut_down-IsSound f v = record {
    registered_once = v.registered_once;
    launched_once = v.launched_once;
    started_launched = v.started_launched;
    launched_started = v.launched_started;
    launched_registered = v.launched_registered;
    wg_bounded = v.wg_bounded;
  }

  pub one_done-IsSound : (f : Factory C T F I) → IsSound f → IsSound (one_done f)
  unfolding one_done is_started
  one_done-IsSound f v = record {
    registered_once = v.registered_once;
    launched_once = v.launched_once;
    started_launched = v.started_launched;
    launched_started = v.launched_started;
    launched_registered = v.launched_registered;
    wg_bounded = omega (arith, v.wg_bounded);
  }

  pub start_of_down : (f : Factory C T F I) → f.shutting_down ≡ true → start f ≡ f
  unfolding start
  start_of_down f down = simp down

  if-informers :
      (b : Bool) (f g : Factory C T F I)
      → g.informers ≡ f.informers
      → (if b then f else g).informers ≡ f.informers
  if-informers true f g e = refl
  if-informers false f g e = e

  pub start-informers : (f : Factory C T F I) → (start f).informers ≡ f.informers
  unfolding start
  start-informers f =
      if-informers f.shutting_down f (start_each f.informers f) (start_each-informers f.informers f)
