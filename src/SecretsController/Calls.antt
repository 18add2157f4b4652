-- ===== src/SecretsController/Calls.antt =====
-- The calls that one round of the loops of secrets_controller.go makes.
use kube_aws_iam_controller.Base.Lists.{List}
use kube_aws_iam_controller.Base.Text.{Text}
use kube_aws_iam_controller.Base.Flow.{done}
use kube_aws_iam_controller.Base.Flow.Keeps.{
  Keeps, CallKeeps, Keeps-done, Keeps-attempt, Keeps-bind, Keeps-if, EffectKeeps-id,
}
use kube_aws_iam_controller.Kube.Types.{Secret, SecretData}
use kube_aws_iam_controller.Kube.Recorded.{
  Sent, updated, created, deleted, asked, recorded, recorded_creds, OfLog, Adds,
  update_secret-keeps, create_secret-keeps, delete_secret-keeps, creds-keeps,
}
use kube_aws_iam_controller.SecretFiles.{expires_soon, expire_key, lookup_data}
use kube_aws_iam_controller.SecretFiles.Expiry.{expires_soon-keeps}
use kube_aws_iam_controller.SecretsController.Renewal.{
  SecretsController, role_of, with_data, new_secret, get_creds, delete_unused, renew,
  refresh_secret, create_secret, session_duration,
}

-- The controller over the recorded cluster.
abbrev pub with_record : {S : Type 0} → SecretsController S → SecretsController (S × List Sent)
with_record c = record {
  client = recorded c.client;
  codec = c.codec;
  interval = c.interval;
  refresh_limit = c.refresh_limit;
  creds = recorded_creds c.creds;
  role_store = c.role_store;
  namespace = c.namespace;
}

module _ {S : Type 0} (c : SecretsController S) {P : List Sent → Type 0} where
  pub get_creds-keeps :
      (role : Text)
      → Adds P (asked role session_duration)
      → CallKeeps (OfLog P) (get_creds (with_record c) role)
  unfolding get_creds
  get_creds-keeps role ask = record { at = (creds-keeps c.creds role session_duration ask).at }

  pub delete_unused-Keeps :
      (secret : Secret)
      → Adds P (deleted secret.namespace secret.name)
      → Keeps (OfLog P) (delete_unused (with_record c) secret)
  unfolding delete_unused
  delete_unused-Keeps secret g =
      Keeps-attempt _ _ (delete_secret-keeps c.client secret.namespace secret.name g)
        (λ e. EffectKeeps-id)

  renew-Keeps :
      (secret : Secret)
      → Adds P (asked (role_of secret) session_duration)
      → ((d : SecretData) → Adds P (updated secret.namespace (with_data secret d)))
      → Keeps (OfLog P) (renew (with_record c) secret)
  unfolding renew
  renew-Keeps secret ask writes =
      Keeps-bind _ _ (Keeps-attempt _ _ (get_creds-keeps _ ask) (λ e. EffectKeeps-id)) λ d.
        Keeps-bind _ _
          (Keeps-attempt _ _ (update_secret-keeps c.client _ _ (writes d)) (λ e. EffectKeeps-id))
          λ _. Keeps-done _

  pub refresh_secret-Keeps :
      (secret : Secret)
      → Adds P (asked (role_of secret) session_duration)
      → ((d : SecretData) → Adds P (updated secret.namespace (with_data secret d)))
      → Keeps (OfLog P) (refresh_secret (with_record c) secret)
  unfolding refresh_secret
  refresh_secret-Keeps secret ask writes = record {
    at = λ w h.
        let expirary = lookup_data expire_key secret.data_map in
        let (due, w') = expires_soon c.codec (recorded c.client) c.refresh_limit expirary w in
        (Keeps-if due (renew (with_record c) secret) (done secret.data_map)
            (λ _. renew-Keeps secret ask writes) (λ _. Keeps-done secret.data_map)).at
          w' (expires_soon-keeps c.client c.codec c.refresh_limit P expirary w h);
  }

  pub create_in_namespace-Keeps :
      (role ns : Text) (creds : SecretData)
      → Adds P (created ns (new_secret role ns creds))
      → Keeps (OfLog P) (create_secret (with_record c) role ns creds)
  unfolding create_secret
  create_in_namespace-Keeps role ns creds g =
      Keeps-attempt _ _ (create_secret-keeps c.client ns (new_secret role ns creds) g)
        (λ e. EffectKeeps-id)
