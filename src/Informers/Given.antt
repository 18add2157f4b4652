-- ===== src/Informers/Given.antt =====
-- InformerFor: what it gives, and that it keeps the factory sound.
use kube_aws_iam_controller.Base.Tests.{◌≡◌, refl, none, some, inl, inr, Option-cases}
use kube_aws_iam_controller.Base.Text.{Text, text_eq_refl}
use kube_aws_iam_controller.Base.GoMap.{
  lookup, insert, lookup-insert, lookup-insert_new, insert-UniqueKeys,
}
use kube_aws_iam_controller.Credentials.Types.{Duration}
use kube_aws_iam_controller.Informers.Types.{Factory, Cache}
use kube_aws_iam_controller.Informers.{is_started, informer_for}
use kube_aws_iam_controller.Informers.Sound.{IsSound}

module _ {C T F I : Type 0} where
  -- An informer is only registered for a type that has none.
  register-IsSound :
      (t : Text) (i : I) (f : Factory C T F I)
      → lookup t f.informers ≡ none
      → IsSound f
      → IsSound (record f { informers = insert t i f.informers })
  unfolding is_started
  register-IsSound t i f free v = record {
    registered_once = insert-UniqueKeys t i f.informers v.registered_once;
    launched_once = v.launched_once;
    started_launched = v.started_launched;
    launched_started = v.launched_started;
    launched_registered =
        λ k j e. lookup-insert_new t k i j f.informers free (v.launched_registered k j e);
    wg_bounded = v.wg_bounded;
  }

  pub informer_for-IsSound :
      (cache : Cache F I) (t : Text) (new_func : C → Duration → I) (f : Factory C T F I)
      → IsSound f
      → IsSound (informer_for cache t new_func f).1
  unfolding informer_for
  informer_for-IsSound cache t new_func f v = elim (Option-cases (lookup t f.informers)) [
    | inl free ↦ rw (free, informer_for) (register-IsSound t _ f free v)
    | inr (i, e) ↦ rw (e, informer_for) v
  ]

  pub informer_for_again :
      (cache : Cache F I) (t : Text) (new_func : C → Duration → I) (i : I) (f : Factory C T F I)
      → lookup t f.informers ≡ some i
      → informer_for cache t new_func f ≡ (i, f)
  unfolding informer_for
  informer_for_again cache t new_func i f known = rw (known, informer_for)

  -- The informer that is given is registered, and the others stay.
  pub lookup-informer_for :
      (cache : Cache F I) (t : Text) (new_func : C → Duration → I) (f : Factory C T F I)
      → let r = informer_for cache t new_func f in lookup t r.1.informers ≡ some r.0
  unfolding informer_for
  lookup-informer_for cache t new_func f = elim (Option-cases (lookup t f.informers)) [
    | inl free ↦ rw (free, informer_for) (rw (lookup-insert t t _ f.informers, text_eq_refl t))
    | inr (i, e) ↦ rw (e, informer_for) e
  ]

  pub informer_for-lookup :
      (cache : Cache F I) (k t : Text) (new_func : C → Duration → I) (i : I) (f : Factory C T F I)
      → lookup t f.informers ≡ some i
      → lookup t (informer_for cache k new_func f).1.informers ≡ some i
  unfolding informer_for
  informer_for-lookup cache k t new_func i f known = elim (Option-cases (lookup k f.informers)) [
    | inl free ↦ rw (free, informer_for) (lookup-insert_new k t _ i f.informers free known)
    | inr (j, e) ↦ rw (e, informer_for) known
  ]

  -- What InformerFor leaves alone.
  pub record SameRun (f g : Factory C T F I) : Type 0 where
    pub same_flag : g.shutting_down ≡ f.shutting_down
    pub same_wg : g.wg ≡ f.wg
    pub same_launched : g.launched ≡ f.launched

  pub informer_for-SameRun :
      (cache : Cache F I) (t : Text) (new_func : C → Duration → I) (f : Factory C T F I)
      → SameRun f (informer_for cache t new_func f).1
  unfolding informer_for
  informer_for-SameRun cache t new_func f = elim (Option-cases (lookup t f.informers)) [
    | inl free ↦
        rw (free, informer_for) (record { same_flag = refl; same_wg = refl; same_launched = refl })
    | inr (i, e) ↦
        rw (e, informer_for) (record { same_flag = refl; same_wg = refl; same_launched = refl })
  ]
