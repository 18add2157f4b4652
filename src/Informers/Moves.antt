-- ===== src/Informers/Moves.antt =====
-- Interleavings of calls of the factory with the ends of the goroutines that it started.
use kube_aws_iam_controller.Base.Tests.{◌≤◌, ◌≡◌, refl, Option, some, true, arith, ◌∙◌}
use kube_aws_iam_controller.Base.Text.{Text}
use kube_aws_iam_controller.Base.GoMap.{lookup}
use kube_aws_iam_controller.Credentials.Types.{Duration}
use kube_aws_iam_controller.Informers.Types.{Factory, Cache}
use kube_aws_iam_controller.Informers.{
  is_started, start, shut_down, one_done, informer_for, new_filtered_shared_informer_factory,
  new_shared_informer_factory_with_options, with_namespace, with_tweak_list_options,
}
use kube_aws_iam_controller.Informers.Sound.{
  IsSound, start-IsSound, shut_down-IsSound, one_done-IsSound, start_of_down, start-informers,
}
use kube_aws_iam_controller.Informers.Given.{
  informer_for-IsSound, informer_for-lookup, informer_for-SameRun, lookup-informer_for,
  informer_for_again,
}

module _ {C T F I : Type 0} where
  -- A call, or the end of a goroutine.
  pub data Move (cache : Cache F I) (f g : Factory C T F I) : Type 0 where
    starts : g ≡ start f → Move cache f g
    shuts_down : g ≡ shut_down f → Move cache f g
    gives_informer :
        (informer_type : Text) (new_func : C → Duration → I)
        → g ≡ (informer_for cache informer_type new_func f).1
        → Move cache f g
    goroutine_ends : g ≡ one_done f → Move cache f g

  pub data Reach (cache : Cache F I) (f : Factory C T F I) : Factory C T F I → Type 0 where
    here : Reach cache f f
    further : {g h : Factory C T F I} → Reach cache f g → Move cache g h → Reach cache f h

  Move-IsSound :
      {cache : Cache F I} {f g : Factory C T F I} → Move cache f g → IsSound f → IsSound g
  Move-IsSound {f} (starts e) v = rw e (start-IsSound f v)
  Move-IsSound {f} (shuts_down e) v = rw e (shut_down-IsSound f v)
  Move-IsSound {cache} {f} (gives_informer t new_func e) v =
      rw e (informer_for-IsSound cache t new_func f v)
  Move-IsSound {f} (goroutine_ends e) v = rw e (one_done-IsSound f v)

  -- However calls of the factory and ends of goroutines are interleaved, a factory that was sound
  -- stays so: no type of informers is launched twice, a type counts as started exactly if it was
  -- launched, then with the informer that is registered for it, and no more goroutines run than
  -- were launched.
  pub Reach-IsSound :
      {cache : Cache F I} {f g : Factory C T F I} → IsSound f → Reach cache f g → IsSound g
  Reach-IsSound v here = v
  Reach-IsSound v (further r m) = Move-IsSound m (Reach-IsSound v r)

  pub new_filtered-IsSound :
      (client : C) (d : Duration) (namespace : Text) (tweak : Option T)
      → IsSound {F = F} {I = I} (new_filtered_shared_informer_factory client d namespace tweak)
  unfolding new_filtered_shared_informer_factory new_shared_informer_factory_with_options
      with_namespace with_tweak_list_options is_started lookup
  new_filtered-IsSound client d namespace tweak = record {
    registered_once = tt;
    launched_once = tt;
    started_launched = λ t e. absurd (cc);
    launched_started = λ t e. refl;
    launched_registered = λ t i e. absurd (cc);
    wg_bounded = omega arith;
  }

  -- Nothing is launched, and goroutines only end.
  pub record StaysDown (f g : Factory C T F I) : Type 0 where
    pub still_down : g.shutting_down ≡ true
    pub fewer_run : g.wg ≤ f.wg
    pub none_launched : g.launched ≡ f.launched

  Move-StaysDown :
      {cache : Cache F I} {f g : Factory C T F I}
      → f.shutting_down ≡ true
      → Move cache f g
      → StaysDown f g
  unfolding shut_down one_done
  Move-StaysDown {f} down (starts e) =
      rw (e, start_of_down f down)
        (record { still_down = down; fewer_run = omega arith; none_launched = refl })
  Move-StaysDown {f} down (shuts_down e) =
      rw e (record { still_down = refl; fewer_run = omega arith; none_launched = refl })
  Move-StaysDown {cache} {f} down (gives_informer t new_func e) =
      let same = informer_for-SameRun cache t new_func f in
      rw e (record {
        still_down = same.same_flag ∙ down;
        fewer_run = omega (arith, same.same_wg);
        none_launched = same.same_launched;
      })
  Move-StaysDown {f} down (goroutine_ends e) =
      rw e (record { still_down = down; fewer_run = omega arith; none_launched = refl })

  -- Once Shutdown has set its flag, whatever calls and ends of goroutines follow: the flag stays, no
  -- goroutine is started and the number of those that run never grows, so that when it is 0 and
  -- Shutdown returns, none will run any more.
  pub Reach-StaysDown :
      {cache : Cache F I} {f g : Factory C T F I}
      → f.shutting_down ≡ true
      → Reach cache f g
      → StaysDown f g
  Reach-StaysDown down here = record {
    still_down = down;
    fewer_run = omega arith;
    none_launched = refl;
  }
  Reach-StaysDown down (further r m) =
      let before = Reach-StaysDown down r in
      let after = Move-StaysDown before.still_down m in
      record {
        still_down = after.still_down;
        fewer_run = omega (arith, before.fewer_run, after.fewer_run);
        none_launched = after.none_launched ∙ before.none_launched;
      }

  Move-lookup :
      {cache : Cache F I} {f g : Factory C T F I} (t : Text) (i : I)
      → lookup t f.informers ≡ some i
      → Move cache f g
      → lookup t g.informers ≡ some i
  unfolding shut_down one_done
  Move-lookup {f} t i known (starts e) = rw (e, start-informers f) known
  Move-lookup {f} t i known (shuts_down e) = rw e known
  Move-lookup {cache} {f} t i known (gives_informer k new_func e) =
      rw e (informer_for-lookup cache k t new_func i f known)
  Move-lookup {f} t i known (goroutine_ends e) = rw e known

  Reach-lookup :
      {cache : Cache F I} {f g : Factory C T F I} (t : Text) (i : I)
      → lookup t f.informers ≡ some i
      → Reach cache f g
      → lookup t g.informers ≡ some i
  Reach-lookup t i known here = known
  Reach-lookup t i known (further r m) = Move-lookup t i (Reach-lookup t i known r) m

  -- Informers are shared: after InformerFor has given one for a type, every later call for that
  -- type, whatever constructor it brings and whatever happens in between, gives the same one and
  -- leaves the factory as it is.
  pub informer_for-Reach :
      (cache : Cache F I) (t : Text) (new_func new_func' : C → Duration → I) (f g : Factory C T F I)
      → Reach cache (informer_for cache t new_func f).1 g
      → informer_for cache t new_func' g ≡ ((informer_for cache t new_func f).0, g)
  informer_for-Reach cache t new_func new_func' f g r =
      informer_for_again cache t new_func' _ g
        (Reach-lookup t _ (lookup-informer_for cache t new_func f) r)
