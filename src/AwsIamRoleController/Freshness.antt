-- ===== src/AwsIamRoleController/Freshness.antt =====
-- A secret that awsiamrole_controller.go writes is due again when its credentials run out.
use kube_aws_iam_controller.Base.Tests.{◌≡◌, refl, ap, some}
use kube_aws_iam_controller.Base.Int.{ℤ, ◌+ℤ◌, ltb_ℤ}
use kube_aws_iam_controller.Base.Outcome.{ok_eq, Outcome, ok, err, panic}
use kube_aws_iam_controller.Base.Text.{Text, text_eq}
use kube_aws_iam_controller.Base.GoMap.{lookup, lookup-insert}
use kube_aws_iam_controller.Credentials.Types.{Duration, Credentials}
use kube_aws_iam_controller.Decimal.RoundTrip.{IsInt64}
use kube_aws_iam_controller.Kube.Types.{Secret, SecretData, AwsIamRole}
use kube_aws_iam_controller.SecretFiles.{
  expire_key, credentials_files, expires_soon, lookup_data, get_generation, with_generation,
  process_credentials,
}
use kube_aws_iam_controller.SecretFiles.Laws.{get_generation-with_generation}
use kube_aws_iam_controller.SecretFiles.Expiry.{expires_soon-format_time}
use kube_aws_iam_controller.AwsIamRoleController.Renewal.{
  AwsIamRoleController, new_secret, renewed_secret, get_creds, with_files, secret_data_of,
}

module _ {S : Type 0} (c : AwsIamRoleController S) where
  with_files-expire :
      (creds got : Credentials) (d : SecretData) (files : Outcome Text)
      → with_files c creds files ≡ ok (got, d)
      → lookup expire_key d ≡ some (c.codec.format_time got.expiration)
  unfolding with_files credentials_files lookup text_eq
  with_files-expire creds got d (ok text) e =
      let same = ok_eq e in rw (← ap (λ p. p.0) same, ← ap (λ p. p.1) same) refl
  with_files-expire creds got d (err m) e = cc
  with_files-expire creds got d panic e = cc

  secret_data_of-expire :
      (r : Outcome Credentials) (got : Credentials) (d : SecretData)
      → secret_data_of c r ≡ ok (got, d)
      → lookup expire_key d ≡ some (c.codec.format_time got.expiration)
  unfolding secret_data_of
  secret_data_of-expire (ok creds) got d e =
      with_files-expire creds got d (c.codec.marshal (process_credentials creds)) e
  secret_data_of-expire (err m) got d e = cc
  secret_data_of-expire panic got d e = cc

  pub lookup-with_generation :
      (generation : ℤ) (d : SecretData)
      → lookup expire_key (with_generation generation d) ≡ lookup expire_key d
  unfolding with_generation text_eq
  lookup-with_generation generation d = rw (lookup-insert) refl

  -- The data make a secret that is due exactly when the expiration comes within the refresh limit,
  -- and that is of the generation.
  pub record IsFor (generation : ℤ) (creds : Credentials) (written : Secret) : Type 0 where
    pub due :
        (s : S)
        → (expires_soon c.codec c.client c.refresh_limit
            (lookup_data expire_key written.data_map)
            s).0
          ≡ ltb_ℤ creds.expiration ((c.client.now s).0 +ℤ c.refresh_limit)
    pub generation_kept : get_generation written.data_map ≡ ok generation

  get_creds-expire :
      (role_arn : Text) (duration : Duration) (s s' : S) (got : Credentials) (d : SecretData)
      → get_creds c role_arn duration s ≡ (ok (got, d), s')
      → lookup expire_key d ≡ some (c.codec.format_time got.expiration)
  unfolding get_creds
  get_creds-expire role_arn duration s s' got d e =
      secret_data_of-expire (c.creds.get role_arn duration s).0 got d (ap (λ r. r.0) e)

  IsFor-data :
      (generation : ℤ) (creds : Credentials) (d : SecretData) (written : Secret)
      → IsInt64 generation
      → c.codec.parse_time (c.codec.format_time creds.expiration) ≡ ok creds.expiration
      → lookup expire_key d ≡ some (c.codec.format_time creds.expiration)
      → written.data_map ≡ some (with_generation generation d)
      → IsFor generation creds written
  unfolding lookup_data
  IsFor-data generation creds d written bounded reads found same = record {
    due = λ s.
        rw (same, lookup-with_generation generation d, found)
          (expires_soon-format_time c.codec c.client c.refresh_limit creds.expiration s reads);
    generation_kept = rw same (get_generation-with_generation generation d bounded);
  }

  -- The secret that is created, and the one that is updated, with the data of credentials that
  -- GetCreds gives is due for a refresh exactly when the expiration of these credentials comes within
  -- the refresh limit, and is of the generation of its role, if that is an `int64` and the expiration
  -- is a time that is read back as it was written.
  pub get_creds-IsFor :
      (role_arn : Text) (duration : Duration) (s s' : S) (creds : Credentials) (d : SecretData)
      (role : AwsIamRole) (secret : Secret)
      → get_creds c role_arn duration s ≡ (ok (creds, d), s')
      → c.codec.parse_time (c.codec.format_time creds.expiration) ≡ ok creds.expiration
      → IsInt64 role.generation
      → IsFor role.generation creds (new_secret role d)
        × IsFor role.generation creds (renewed_secret role secret d)
  unfolding new_secret renewed_secret
  get_creds-IsFor role_arn duration s s' creds d role secret got reads bounded =
      let found = get_creds-expire role_arn duration s s' creds d got in
      (
        IsFor-data role.generation creds d (new_secret role d) bounded reads found refl,
        IsFor-data role.generation creds d (renewed_secret role secret d) bounded reads found refl,
      )
