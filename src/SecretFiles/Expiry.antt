-- ===== src/SecretFiles/Expiry.antt =====
-- Reading the expiry of a secret: what was written is read back, and no recorded call is made.
use kube_aws_iam_controller.Base.Tests.{◌≡◌, refl, Option, none, some}
use kube_aws_iam_controller.Base.Lists.{List}
use kube_aws_iam_controller.Base.Int.{◌+ℤ◌, ltb_ℤ}
use kube_aws_iam_controller.Base.Outcome.{Outcome, ok, err, panic}
use kube_aws_iam_controller.Base.Text.{Text}
use kube_aws_iam_controller.Credentials.Types.{Time, Duration}
use kube_aws_iam_controller.Kube.Cluster.{Cluster}
use kube_aws_iam_controller.Kube.Recorded.{Sent, World, recorded, OfLog}
use kube_aws_iam_controller.SecretFiles.{Codec, soon, expires_soon}

module _ {S : Type 0} (client : Cluster S) (codec : Codec) (refresh_limit : Duration)
    (P : List Sent → Type 0) where
  soon-keeps :
      (expire : Outcome Time) (w : World S)
      → OfLog P w
      → OfLog P (soon codec (recorded client) refresh_limit expire w).1
  unfolding soon recorded
  soon-keeps (ok expire) w h = h
  soon-keeps (err e) w h = h
  soon-keeps panic w h = h

  pub expires_soon-keeps :
      (expirary : Option Text) (w : World S)
      → OfLog P w
      → OfLog P (expires_soon codec (recorded client) refresh_limit expirary w).1
  unfolding expires_soon
  expires_soon-keeps none w h = h
  expires_soon-keeps (some expirary) w h = soon-keeps (codec.parse_time expirary) w h

-- An expiry that the codec reads back asks for new credentials exactly when it comes before the
-- clock's time and the limit.
pub expires_soon-format_time :
    {S : Type 0} (codec : Codec) (client : Cluster S) (refresh_limit : Duration) (t : Time) (s : S)
    → codec.parse_time (codec.format_time t) ≡ ok t
    → (expires_soon codec client refresh_limit (some (codec.format_time t)) s).0
      ≡ ltb_ℤ t ((client.now s).0 +ℤ refresh_limit)
unfolding expires_soon soon
expires_soon-format_time codec client refresh_limit t s reads = rw reads refl

-- The record makes no difference to what is read.
soon-recorded :
    {S : Type 0} (codec : Codec) (client : Cluster S) (limit : Duration) (t : Outcome Time) (s : S)
    (log : List Sent)
    → soon codec (recorded client) limit t (s, log)
      ≡ ((soon codec client limit t s).0, ((soon codec client limit t s).1, log))
unfolding soon recorded
soon-recorded codec client limit (ok t) s log = refl
soon-recorded codec client limit (err e) s log = refl
soon-recorded codec client limit panic s log = refl

pub expires_soon-recorded :
    {S : Type 0} (codec : Codec) (client : Cluster S) (limit : Duration) (text : Option Text)
    (s : S) (log : List Sent)
    → expires_soon codec (recorded client) limit text (s, log) ≡ (
      (expires_soon codec client limit text s).0,
      ((expires_soon codec client limit text s).1, log),
    )
unfolding expires_soon
expires_soon-recorded codec client limit none s log = refl
expires_soon-recorded codec client limit (some text) s log =
    soon-recorded codec client limit (codec.parse_time text) s log

-- What the clock leaves alone is left alone.
module _ {S A : Type 0} (codec : Codec) (client : Cluster S) (limit : Duration) (view : S → A)
    (clock_keeps : (s : S) → view (client.now s).1 ≡ view s) where
  soon-view : (t : Outcome Time) (s : S) → view (soon codec client limit t s).1 ≡ view s
  unfolding soon
  soon-view (ok t) s = clock_keeps s
  soon-view (err e) s = refl
  soon-view panic s = refl

  pub expires_soon-view :
      (text : Option Text) (s : S) → view (expires_soon codec client limit text s).1 ≡ view s
  unfolding expires_soon
  expires_soon-view none s = refl
  expires_soon-view (some text) s = soon-view (codec.parse_time text) s
