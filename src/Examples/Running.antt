-- ===== src/Examples/Running.antt =====
-- The theorems on the goroutines of the program, at runs of a few steps.
use kube_aws_iam_controller.Base.Tests.{◌≡◌, refl, true, Option, none, some}
use kube_aws_iam_controller.Base.Outcome.{ok}
use kube_aws_iam_controller.Base.Lists.{[]}
use kube_aws_iam_controller.StartUp.Main.{Controllers}
use kube_aws_iam_controller.StartUp.Running.{
  listening, selecting, main_returned, Program, start_controllers, receive, cancel, by_signal,
  by_handler, by_secrets, sigterm, notifies, receives, cancels, server_fails, Reach, here, further,
}
use kube_aws_iam_controller.StartUp.Running.Serving.{StaysServing, Reach-StaysServing}
use kube_aws_iam_controller.StartUp.Running.Returns.{CanReturn, sigterms_needed, Reach-CanReturn}
use kube_aws_iam_controller.Examples.Controllers.{roles_controller, secrets_controller}

abbrev both : Controllers (Unit {0})
both = record { secrets = secrets_controller; aws_iam_roles = roles_controller (ok []) }

abbrev serves : Unit {0} → Option (Unit {0})
serves s = none

abbrev fails : Unit {0} → Option (Unit {0})
fails s = some s

abbrev launched : Program (Unit {0})
launched = start_controllers both tt

abbrev notified : Program (Unit {0})
notified = record launched { handler = listening }

abbrev signalled : Program (Unit {0})
signalled = record notified { signals = true }

abbrev cancelled : Program (Unit {0})
cancelled = cancel both (receive both signalled)

-- A SIGTERM comes and is handled.
launched-Reach : (l : Unit {0} → Option (Unit {0})) → Reach both l launched cancelled
unfolding start_controllers
launched-Reach l =
    further
      (further
        (further (further here refl (by_handler (notifies refl refl))) refl
          (by_signal (sigterm (λ e. cc) refl)))
        refl (by_handler (receives refl refl refl)))
      refl (by_handler (cancels refl refl))

Reach-StaysServing_example : StaysServing both tt cancelled
Reach-StaysServing_example =
    Reach-StaysServing both serves tt cancelled (λ s. refl) (launched-Reach serves)

-- Then the server fails, and main returns.
abbrev failed : Program (Unit {0})
failed = record cancelled { secrets_run = selecting }

abbrev returned : Program (Unit {0})
returned = record failed { ending = some main_returned }

failed-Reach : Reach both fails launched failed
unfolding start_controllers
failed-Reach = further (launched-Reach fails) refl (by_secrets (server_fails tt refl refl refl))

failed_runs : failed.ending ≡ none
unfolding start_controllers
failed_runs = refl

Reach-CanReturn_example :
    CanReturn both fails (sigterms_needed both failed.handler failed.signals) failed
Reach-CanReturn_example =
    Reach-CanReturn both fails tt failed failed-Reach failed_runs refl (λ e. cc)
