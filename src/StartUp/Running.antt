-- ===== src/StartUp/Running.antt =====
-- The goroutines of the program from the end of `main` of main.go on: `main` itself in `Run` of the
-- secrets controller, `Run` of the AWSIAMRole controller, and `handleSigterm`. A step is one statement
-- that waits, or one whole refresh; the steps of the goroutines come in any order.
pub mod Serving
pub mod Returns
use kube_aws_iam_controller.Base.Tests.{◌≡◌, ◌≢◌, Bool, true, false, Option, none, some}
use kube_aws_iam_controller.Base.Int.{◌-ℤ◌}
use kube_aws_iam_controller.Base.Outcome.{Outcome, ok, err, panic}
use kube_aws_iam_controller.Credentials.Types.{Time}
use kube_aws_iam_controller.AwsIamRoleController.{refresh as refresh_roles}
use kube_aws_iam_controller.SecretsController.Loop.{round}
use kube_aws_iam_controller.StartUp.Main.{Controllers}

-- Where `handleSigterm` stands: before `signal.Notify`, before `<-signals`, before `cancelFunc()`, at
-- its end.
pub data Handler : Type 0 where
  starting listening received finished : Handler

-- Where `Run` of the secrets controller stands: in `http.ListenAndServe`, or at its `select`.
pub data SecretsRun : Type 0 where
  serving selecting : SecretsRun

-- Where `Run` of the AWSIAMRole controller stands: before a refresh, at its `select`, at its end.
pub data RolesRun : Type 0 where
  refreshing pausing stopped : RolesRun

-- How the process ends: `main` returns, the signal kills it, or a goroutine panics.
pub data Ending : Type 0 where
  main_returned killed panicked : Ending

pub record Program (S : Type 0) : Type 0 where
  pub secrets_run : SecretsRun
  pub next_refresh : Time
  pub roles_run : RolesRun
  pub handler : Handler
  -- the channel `signals`, of capacity one
  pub signals : Bool
  -- whether `ctx.Done()` is closed
  pub cancelled : Bool
  pub ending : Option Ending
  pub world : S

module _ {S : Type 0} (c : Controllers S) where
  -- The `go` statements, and `Run` of the secrets controller up to `http.ListenAndServe`.
  unfoldable pub start_controllers : S → Program S
  start_controllers s =
      let (now, s') = c.secrets.client.now s in
      record {
        secrets_run = serving;
        next_refresh = now -ℤ c.secrets.interval;
        roles_run = refreshing;
        handler = starting;
        signals = false;
        cancelled = false;
        ending = none;
        world = s';
      }

  -- What follows a refresh: an error is only logged, a panic ends the process.
  unfoldable pub refreshed : Outcome (Unit {0}) → Program S → Program S
  refreshed (ok _) p = p
  refreshed (err e) p = p
  refreshed panic p = record p { ending = some panicked }

  unfoldable pub roles_refresh : Program S → Program S
  roles_refresh p =
      let (r, s) = refresh_roles c.aws_iam_roles p.world in
      refreshed r (record p { roles_run = pausing; world = s })

  unfoldable pub secrets_round : Program S → Program S
  secrets_round p =
      let (r, (next_refresh, s)) = round c.secrets (p.next_refresh, p.world) in
      refreshed r (record p { next_refresh = next_refresh; world = s })

  -- `<-signals`
  abbrev pub receive : Program S → Program S
  receive p = record p { handler = received; signals = false }

  -- `cancelFunc()`
  abbrev pub cancel : Program S → Program S
  cancel p = record p { handler = finished; cancelled = true }

  -- A SIGTERM kills the process before `signal.Notify`; behind it, it goes to the channel, or is
  -- dropped if that is full.
  pub data SignalMove (p q : Program S) : Type 0 where
    killed_by_sigterm :
        p.handler ≡ starting → q ≡ record p { ending = some killed } → SignalMove p q
    sigterm : p.handler ≢ starting → q ≡ record p { signals = true } → SignalMove p q

  -- A step of `handleSigterm`.
  pub data HandlerMove (p q : Program S) : Type 0 where
    notifies : p.handler ≡ starting → q ≡ record p { handler = listening } → HandlerMove p q
    receives : p.handler ≡ listening → p.signals ≡ true → q ≡ receive p → HandlerMove p q
    cancels : p.handler ≡ received → q ≡ cancel p → HandlerMove p q

  -- A step of `Run` of the AWSIAMRole controller.
  pub data RolesMove (p q : Program S) : Type 0 where
    roles_refreshes : p.roles_run ≡ refreshing → q ≡ roles_refresh p → RolesMove p q
    roles_wakes : p.roles_run ≡ pausing → q ≡ record p { roles_run = refreshing } → RolesMove p q
    roles_returns :
        p.roles_run ≡ pausing
        → p.cancelled ≡ true
        → q ≡ record p { roles_run = stopped }
        → RolesMove p q

  -- A step of `Run` of the secrets controller; `main` returns with it. `listen_and_serve` returns only
  -- when it fails.
  pub data SecretsMove (listen_and_serve : S → Option S) (p q : Program S) : Type 0 where
    server_fails :
        (s : S)
        → p.secrets_run ≡ serving
        → listen_and_serve p.world ≡ some s
        → q ≡ record p { secrets_run = selecting; world = s }
        → SecretsMove listen_and_serve p q
    secrets_wakes :
        p.secrets_run ≡ selecting → q ≡ secrets_round p → SecretsMove listen_and_serve p q
    secrets_returns :
        p.secrets_run ≡ selecting
        → p.cancelled ≡ true
        → q ≡ record p { ending = some main_returned }
        → SecretsMove listen_and_serve p q

  -- A step of a process that has not ended: that of a signal, or of one of the goroutines.
  pub data Move (listen_and_serve : S → Option S) (p q : Program S) : Type 0 where
    by_signal : SignalMove p q → Move listen_and_serve p q
    by_handler : HandlerMove p q → Move listen_and_serve p q
    by_roles : RolesMove p q → Move listen_and_serve p q
    by_secrets : SecretsMove listen_and_serve p q → Move listen_and_serve p q

  pub data Reach (listen_and_serve : S → Option S) (p : Program S) : Program S → Type 0 where
    here : Reach listen_and_serve p p
    further :
        {q r : Program S}
        → Reach listen_and_serve p q
        → q.ending ≡ none
        → Move listen_and_serve q r
        → Reach listen_and_serve p r
