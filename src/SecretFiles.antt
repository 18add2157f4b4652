-- ===== src/SecretFiles.antt =====
-- What a secret with credentials holds: the keys and files of secrets_controller.go, the labels and
-- the generation of awsiamrole_controller.go, and the test for soon to expire credentials.
pub mod Laws
pub mod Expiry
use kube_aws_iam_controller.Base.Tests.{
  Option, none, some, Bool, true, false, ◌&&◌, if◌then◌else◌, ℕ,
}
use kube_aws_iam_controller.Base.Lists.{List, [], ◌∷◌, ◌++◌}
use kube_aws_iam_controller.Base.Int.{ℤ, pos, ◌+ℤ◌, ltb_ℤ}
use kube_aws_iam_controller.Base.Outcome.{Outcome, ok, err, panic}
use kube_aws_iam_controller.Base.Text.{Text, codes, text_eq}
use kube_aws_iam_controller.Base.GoMap.{GoMap, lookup, insert}
use kube_aws_iam_controller.Credentials.Types.{Time, Duration, Credentials}
use kube_aws_iam_controller.Decimal.{parse_int, format_int}
use kube_aws_iam_controller.Kube.Types.{TypeMeta, ObjectMeta, OwnerReference, SecretData}
use kube_aws_iam_controller.Kube.Cluster.{Cluster}

abbrev pub heritage_label_key : Text
heritage_label_key = codes "heritage"

abbrev pub aws_iam_controller_label_value : Text
aws_iam_controller_label_value = codes "kube-aws-iam-controller"

abbrev pub role_arn_key : Text
role_arn_key = codes "role-arn"

abbrev pub expire_key : Text
expire_key = codes "expire"

abbrev pub credentials_file_key : Text
credentials_file_key = codes "credentials"

abbrev pub credentials_process_file_key : Text
credentials_process_file_key = codes "credentials.process"

abbrev pub credentials_process_file_content : Text
credentials_process_file_content =
    codes "[default]\ncredential_process = cat /meta/aws-iam/credentials.json\n"

abbrev pub credentials_json_file_key : Text
credentials_json_file_key = codes "credentials.json"

abbrev pub aws_iam_role_generation_key : Text
aws_iam_role_generation_key = codes "awsiamrole-generation"

-- `credentialsFileTemplate` with its four holes filled.
unfoldable pub credentials_file : Text → Text → Text → Text → Text
credentials_file access_key_id secret_access_key session_token expiration =
    codes "[default]\naws_access_key_id = "
    ++ access_key_id
    ++ codes "\naws_secret_access_key = "
    ++ secret_access_key
    ++ codes "\naws_session_token = "
    ++ session_token
    ++ codes "\naws_expiration = "
    ++ expiration
    ++ codes "\n"

pub record ProcessCredentials : Type 0 where
  pub version : ℕ
  pub access_key_id : Text
  pub secret_access_key : Text
  pub session_token : Text
  pub expiration : Time

unfoldable pub process_credentials : Credentials → ProcessCredentials
process_credentials creds = record {
  version = 1;
  access_key_id = creds.access_key_id;
  secret_access_key = creds.secret_access_key;
  session_token = creds.session_token;
  expiration = creds.expiration;
}

-- `Format` and `Parse` of package time at the layout RFC 3339, and `json.Marshal`.
pub record Codec : Type 0 where
  pub format_time : Time → Text
  pub parse_time : Text → Outcome Time
  pub marshal : ProcessCredentials → Outcome Text

module _ (codec : Codec) where
  open codec use {format_time, parse_time, marshal}

  -- The files that both controllers write, once the credentials are marshalled.
  unfoldable pub credentials_files : Credentials → Text → SecretData
  credentials_files creds process_creds_data =
      (expire_key, format_time creds.expiration)
      ∷ (
        credentials_file_key,
        credentials_file creds.access_key_id creds.secret_access_key creds.session_token
            (format_time creds.expiration),
      )
      ∷ (credentials_process_file_key, credentials_process_file_content)
      ∷ (credentials_json_file_key, process_creds_data)
      ∷ []

  -- Whether an expiry time that was read asks for new credentials, and the world after the clock
  -- was read.
  unfoldable pub soon : {S : Type 0} → Cluster S → Duration → Outcome Time → S → Bool × S
  soon client refresh_limit (ok expire) s =
      let (now, s') = client.now s in (ltb_ℤ expire (now +ℤ refresh_limit), s')
  soon client refresh_limit (err _) s = (true, s)
  soon client refresh_limit panic s = (true, s)

  -- The same for the text under the key `expire`.
  unfoldable pub expires_soon : {S : Type 0} → Cluster S → Duration → Option Text → S → Bool × S
  expires_soon client refresh_limit none s = (true, s)
  expires_soon client refresh_limit (some expirary) s =
      soon client refresh_limit (parse_time expirary) s

-- A lookup in a map that may be nil.
unfoldable pub lookup_data : Text → Option SecretData → Option Text
lookup_data key none = none
lookup_data key (some m) = lookup key m

-- `secret.Data[key]` without the second result: empty where the key is missing.
unfoldable pub data_at : Text → Option SecretData → Text
data_at key m = elim (lookup_data key m) [ none ↦ [] | some value ↦ value ]

insert_all : GoMap Text → GoMap Text → GoMap Text
insert_all [] labels = labels
insert_all ((k, v) ∷ more) labels = insert_all more (insert k v labels)

unfoldable pub merge_labels : GoMap Text → GoMap Text → GoMap Text
unfolding insert_all
merge_labels base additional = insert_all additional (insert_all base [])

is_reference : TypeMeta → ObjectMeta → OwnerReference → Bool
is_reference owner_type_meta owner_object_meta ref =
    text_eq ref.api_version owner_type_meta.api_version
    && (text_eq ref.kind owner_type_meta.kind
        && (text_eq ref.uid owner_object_meta.uid && text_eq ref.name owner_object_meta.name))

any_reference : TypeMeta → ObjectMeta → List OwnerReference → Bool
any_reference owner_type_meta owner_object_meta [] = false
any_reference owner_type_meta owner_object_meta (ref ∷ refs) =
    let later = any_reference owner_type_meta owner_object_meta refs in
    if is_reference owner_type_meta owner_object_meta ref then true else later

unfoldable pub is_owned_reference : TypeMeta → ObjectMeta → ObjectMeta → Bool
unfolding any_reference is_reference
is_owned_reference owner_type_meta owner_object_meta dependent =
    any_reference owner_type_meta owner_object_meta dependent.owner_references

generation_of : Option Text → Outcome ℤ
generation_of none = ok (pos 0)
generation_of (some gen) = parse_int gen

unfoldable pub get_generation : Option SecretData → Outcome ℤ
unfolding generation_of
get_generation secret_data = generation_of (lookup_data aws_iam_role_generation_key secret_data)

-- The text of a generation, and the data of a secret with it.
unfoldable pub with_generation : ℤ → SecretData → SecretData
with_generation generation data_map =
    insert aws_iam_role_generation_key (format_int generation) data_map
