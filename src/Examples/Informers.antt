-- ===== src/Examples/Informers.antt =====
-- The theorems on the shared informers at a factory with one informer.
use kube_aws_iam_controller.Base.Tests.{◌≡◌, refl, none, true, false}
use kube_aws_iam_controller.Base.Int.{pos}
use kube_aws_iam_controller.Base.Text.{Text, codes}
use kube_aws_iam_controller.Base.GoMap.{lookup}
use kube_aws_iam_controller.Credentials.Types.{Duration, second}
use kube_aws_iam_controller.Informers.Types.{Factory, Cache}
use kube_aws_iam_controller.Informers.{
  new_filtered_shared_informer_factory, new_shared_informer_factory_with_options, with_namespace,
  with_tweak_list_options, informer_for, start, shut_down, one_done, wait_for_cache_sync,
}
use kube_aws_iam_controller.Informers.Sound.{IsSound}
use kube_aws_iam_controller.Informers.Given.{informer_for-IsSound}
use kube_aws_iam_controller.Informers.Moves.{
  Reach, here, further, starts, gives_informer, goroutine_ends, Reach-IsSound, new_filtered-IsSound,
  StaysDown, Reach-StaysDown, informer_for-Reach,
}
use kube_aws_iam_controller.Informers.Sync.{answered, wait_for_cache_sync-start}

-- An informer is its name, and every cache is filled.
abbrev some_cache : Cache (Unit {0}) Text
some_cache = record { set_transform = λ i f. i; wait_for_cache_sync = λ i. true }

abbrev first : Factory (Unit {0}) (Unit {0}) (Unit {0}) Text
first = new_filtered_shared_informer_factory tt (pos second) (codes "default") none

abbrev new_informer : Unit {0} → Duration → Text
new_informer client resync = codes "roles"

-- With an informer, and then started.
abbrev with_informer : Factory (Unit {0}) (Unit {0}) (Unit {0}) Text
with_informer = (informer_for some_cache (codes "AWSIAMRole") new_informer first).1

abbrev running : Factory (Unit {0}) (Unit {0}) (Unit {0}) Text
running = start with_informer

first-IsSound : IsSound first
first-IsSound = new_filtered-IsSound tt (pos second) (codes "default") none

first-Reach-running : Reach some_cache first running
first-Reach-running =
    further (further here (gives_informer (codes "AWSIAMRole") new_informer refl)) (starts refl)

Reach-IsSound_example : IsSound running
Reach-IsSound_example = Reach-IsSound first-IsSound first-Reach-running

down-Reach-ended : Reach some_cache (shut_down running) (one_done (start (shut_down running)))
down-Reach-ended = further (further here (starts refl)) (goroutine_ends refl)

shut_down_down : (shut_down running).shutting_down ≡ true
unfolding shut_down
shut_down_down = refl

Reach-StaysDown_example : StaysDown (shut_down running) (one_done (start (shut_down running)))
Reach-StaysDown_example = Reach-StaysDown shut_down_down down-Reach-ended

with_informer-Reach-ended : Reach some_cache with_informer (one_done running)
with_informer-Reach-ended = further (further here (starts refl)) (goroutine_ends refl)

informer_for-Reach_example :
    informer_for some_cache (codes "AWSIAMRole") (λ client resync. codes "other") (one_done running)
    ≡ ((informer_for some_cache (codes "AWSIAMRole") new_informer first).0, one_done running)
informer_for-Reach_example =
    informer_for-Reach some_cache (codes "AWSIAMRole") new_informer (λ client resync. codes "other")
      first (one_done running) with_informer-Reach-ended

with_informer-IsSound : IsSound with_informer
with_informer-IsSound =
    informer_for-IsSound some_cache (codes "AWSIAMRole") new_informer first first-IsSound

with_informer_up : with_informer.shutting_down ≡ false
unfolding informer_for new_filtered_shared_informer_factory new_shared_informer_factory_with_options
    with_namespace with_tweak_list_options lookup
with_informer_up = refl

wait_for_cache_sync-start_example :
    (lookup (codes "AWSIAMRole") (wait_for_cache_sync some_cache (start with_informer))
      ≡ answered some_cache (lookup (codes "AWSIAMRole") with_informer.informers))
    × (lookup (codes "AWSIAMRole") (start with_informer).launched
        ≡ lookup (codes "AWSIAMRole") with_informer.informers)
wait_for_cache_sync-start_example =
    wait_for_cache_sync-start some_cache with_informer (codes "AWSIAMRole") with_informer-IsSound
      with_informer_up
