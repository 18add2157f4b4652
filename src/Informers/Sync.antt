-- ===== src/Informers/Sync.antt =====
-- Start and WaitForCacheSync: every registered informer is started, and exactly the started ones are
-- waited for.
use kube_aws_iam_controller.Base.Tests.{
  ◌≡◌, refl, sym, ◌∙◌, Option, none, some, Bool, true, false, if◌then◌else◌, arith, inl, inr,
  Bool-cases, Option-cases,
}
use kube_aws_iam_controller.Base.Lists.{[], ◌∷◌}
use kube_aws_iam_controller.Base.Text.{Text, text_eq, text_eq_iff}
use kube_aws_iam_controller.Base.GoMap.{
  GoMap, lookup, insert, lookup-insert, insert-UniqueKeys, UniqueKeys,
}
use kube_aws_iam_controller.Informers.Types.{Factory, Cache}
use kube_aws_iam_controller.Informers.{
  sync_each, is_started, start_one, start_each, start, started_of, wait_for_cache_sync,
}
use kube_aws_iam_controller.Informers.Sound.{
  IsSound, start-IsSound, start-informers, is_started-launch,
}

abbrev found_or : {A : Type 0} → Option A → Option A → Option A
found_or none other = other
found_or (some a) other = some a

abbrev is_there : {A : Type 0} → Option A → Bool
is_there none = false
is_there (some a) = true

-- What the cache answers for an informer, if there is one.
abbrev pub answered : {F I : Type 0} → Cache F I → Option I → Option Bool
answered cache none = none
answered cache (some informer) = some (cache.wait_for_cache_sync informer)

lookup-sync_each :
    {F I : Type 0} (cache : Cache F I) (t : Text) (m : GoMap I) (res : GoMap Bool)
    → UniqueKeys m
    → lookup t (sync_each cache m res) ≡ found_or (answered cache (lookup t m)) (lookup t res)
unfolding sync_each lookup
lookup-sync_each cache t [] res u = refl
lookup-sync_each cache t ((k, i) ∷ m) res (new, u) =
    let rest = lookup-sync_each cache t m (insert k (cache.wait_for_cache_sync i) res) u in
    ground (arith, rest, lookup-insert k t (cache.wait_for_cache_sync i) res, text_eq_iff k t)

module _ {C T F I : Type 0} where
  lookup-started_of :
      (t : Text) (m : GoMap I) (f : Factory C T F I) (acc : GoMap I)
      → UniqueKeys m
      → lookup t (started_of m f acc)
        ≡ found_or (if is_started t f then lookup t m else none) (lookup t acc)
  unfolding started_of lookup
  lookup-started_of t [] f acc u = ground arith
  lookup-started_of t ((k, i) ∷ m) f acc (new, u) =
      let rest = lookup-started_of t m f (if is_started k f then insert k i acc else acc) u in
      ground (arith, rest, lookup-insert k t i acc, text_eq_iff k t)

  started_of-UniqueKeys :
      (m : GoMap I) (f : Factory C T F I) (acc : GoMap I)
      → UniqueKeys acc
      → UniqueKeys (started_of m f acc)
  unfolding started_of
  started_of-UniqueKeys [] f acc u = u
  started_of-UniqueKeys ((k, i) ∷ m) f acc u = elim (Bool-cases (is_started k f)) [
    | inl e ↦ rw e (started_of-UniqueKeys m f (insert k i acc) (insert-UniqueKeys k i acc u))
    | inr e ↦ rw e (started_of-UniqueKeys m f acc u)
  ]

  is_started-start_one :
      (t k : Text) (i : I) (f : Factory C T F I)
      → is_started t (start_one k i f) ≡ (if text_eq k t then true else is_started t f)
  unfolding start_one
  is_started-start_one t k i f = ground (arith, is_started-launch k t i f, text_eq_iff k t)

  is_started-start_each :
      (t : Text) (m : GoMap I) (f : Factory C T F I)
      → is_started t (start_each m f) ≡ (if is_started t f then true else is_there (lookup t m))
  unfolding start_each lookup
  is_started-start_each t [] f = ground arith
  is_started-start_each t ((k, i) ∷ m) f =
      ground (arith, is_started-start_each t m (start_one k i f), is_started-start_one t k i f)

  start_of_up : (f : Factory C T F I) → f.shutting_down ≡ false → start f ≡ start_each f.informers f
  unfolding start
  start_of_up f up = simp up

  is_started-start :
      (f : Factory C T F I) (t : Text)
      → IsSound f
      → f.shutting_down ≡ false
      → is_started t (start f) ≡ is_there (lookup t f.informers)
  is_started-start f t v up =
      rw (start_of_up f up, is_started-start_each t f.informers f)
        (elim (Bool-cases (is_started t f)) [
          | inl old ↦ let (i, l) = v.started_launched t old in rw (old, v.launched_registered t i l)
          | inr new ↦ rw new
        ])

  lookup-launched :
      (f : Factory C T F I) (t : Text)
      → IsSound f
      → f.shutting_down ≡ false
      → lookup t (start f).launched ≡ lookup t f.informers
  lookup-launched f t v up =
      let w = start-IsSound f v in
      let started = is_started-start f t v up in
      elim (Option-cases (lookup t f.informers)) [
        | inl e ↦ w.launched_started t (started ∙ rw e) ∙ sym e
        | inr (i, e) ↦
            let (j, l) = w.started_launched t (started ∙ rw e) in
            let known = w.launched_registered t j l in l ∙ sym known ∙ rw (start-informers f)
      ]

  lookup-wait_for_cache_sync :
      (cache : Cache F I) (f : Factory C T F I) (t : Text)
      → UniqueKeys f.informers
      → lookup t (wait_for_cache_sync cache f)
        ≡ answered cache (if is_started t f then lookup t f.informers else none)
  unfolding wait_for_cache_sync lookup
  lookup-wait_for_cache_sync cache f t u =
      let unique = started_of-UniqueKeys f.informers f [] tt in
      ground (
        arith,
        lookup-sync_each cache t (started_of f.informers f []) [] unique,
        lookup-started_of t f.informers f [] u,
      )

  -- After Start, unless the factory is shutting down, WaitForCacheSync waits for every registered
  -- informer and for nothing else, and reports the answer of each under its type; and a goroutine
  -- has been started with each of them.
  pub wait_for_cache_sync-start :
      (cache : Cache F I) (f : Factory C T F I) (t : Text)
      → IsSound f
      → f.shutting_down ≡ false
      → (lookup t (wait_for_cache_sync cache (start f)) ≡ answered cache (lookup t f.informers))
        × (lookup t (start f).launched ≡ lookup t f.informers)
  wait_for_cache_sync-start cache f t v up = (
    lookup-wait_for_cache_sync cache (start f) t (start-IsSound f v).registered_once
        ∙ rw (is_started-start f t v up, start-informers f)
            (elim (Option-cases (lookup t f.informers)) [ inl e ↦ rw e | inr (i, e) ↦ rw e ]),
    lookup-launched f t v up,
  )
