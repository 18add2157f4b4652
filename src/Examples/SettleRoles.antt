-- ===== src/Examples/SettleRoles.antt =====
-- The theorems on what `refresh` of the AWSIAMRole controller leaves, over a server that holds the secret
-- of a role without data, an orphan, and a role without a secret.
use kube_aws_iam_controller.Base.Tests.{
  ◌≡◌, ◌≢◌, refl, sym, ap, ◌∙◌, true, false, none, inl, inr, arith,
}
use kube_aws_iam_controller.Base.Lists.{List, [], ◌∷◌, Member, map}
use kube_aws_iam_controller.Base.Int.{ℤ, pos, ◌+ℤ◌}
use kube_aws_iam_controller.Base.Outcome.{ok}
use kube_aws_iam_controller.Base.Text.{Text, codes, text_eq, text_eq_iff}
use kube_aws_iam_controller.Base.GoMap.{lookup, insert}
use kube_aws_iam_controller.Base.GoMap.Index.{DistinctKeys, index_by}
use kube_aws_iam_controller.Credentials.Types.{Time}
use kube_aws_iam_controller.Kube.Types.{Secret, AwsIamRole}
use kube_aws_iam_controller.SecretFiles.{
  expire_key, data_at, soon, expires_soon, lookup_data, credentials_files, is_owned_reference,
  merge_labels, with_generation, get_generation,
}
use kube_aws_iam_controller.Base.Flow.{
  for_each, next_round, attempt, failed_by, effect, done, ◌>>=◌,
}
use kube_aws_iam_controller.AwsIamRoleController.Renewal.{
  AwsIamRoleController, aws_iam_role_owner_labels, refresh_secret, delete_orphan, renew,
  fetch_creds, get_creds, renewed_secret, put_status, with_status, observed, sync_existing,
  create_missing, new_secret, observe, update_outdated, with_files, secret_data_of, duration_of,
  session_duration,
}
use kube_aws_iam_controller.AwsIamRoleController.{
  secret_key, role_key, refresh, reconcile, clean_and_sync, refresh_secrets, sync_role, secrets_map,
  roles_map, owner_of,
}
use kube_aws_iam_controller.AwsIamRoleController.Calls.{with_record}
use kube_aws_iam_controller.AwsIamRoleController.Settle.{Calm, Fits}
use kube_aws_iam_controller.AwsIamRoleController.Settle.Refresh.{
  RolesSettled, refresh-RolesSettled, refresh-again,
}
use kube_aws_iam_controller.Examples.Controllers.{
  meta, some_role, some_secret, some_codec, some_creds,
}
use kube_aws_iam_controller.Examples.Server.{
  select, labelled, IsTaken, is_there, is_current, store_secret, drop_key,
}
use kube_aws_iam_controller.Examples.RoleServer.{
  Both, is_held, put_one, put_all, both_in_memory, held, roles, both-Serves, both-ServesRoles,
}

abbrev role_named : Text → AwsIamRole
role_named name = record some_role { object_meta = meta name [] }

abbrev labelled_secret : Secret → Secret
labelled_secret x = record x {
  object_meta = record x.object_meta { labels = aws_iam_role_owner_labels };
  data_map = none;
}

abbrev settling : AwsIamRoleController Both
settling = record {
  client = both_in_memory;
  codec = some_codec;
  interval = pos 1;
  refresh_limit = pos 20;
  creds = some_creds;
  namespace = [];
}

abbrev lost_secret : Secret
lost_secret = record some_secret { object_meta = meta (codes "lost") [] }

abbrev before : Both
before = (
  labelled_secret some_secret ∷ labelled_secret lost_secret ∷ [],
  some_role ∷ role_named (codes "new") ∷ [],
)

-- Two elements of different keys.
two-DistinctKeys :
    {X : Type 0} (key : X → Text) (xs : List X) (k j : Text)
    → map key xs ≡ k ∷ j ∷ []
    → text_eq j k ≡ false
    → DistinctKeys key xs
two-DistinctKeys key [] k j e ne = absurd (cc)
two-DistinctKeys key (x ∷ []) k j e ne = absurd (cc)
two-DistinctKeys key (x ∷ y ∷ z ∷ xs) k j e ne = absurd (cc)
two-DistinctKeys key (x ∷ y ∷ []) k j e ne =
    let kx : key x ≡ k = cc in
    let jy : key y ≡ j = cc in
    (
      (λ z mem same. elim mem [
        | inl here ↦ let equal = (text_eq_iff j k).1 (sym jy ∙ ap key (sym here) ∙ same ∙ kx) in cc
        | inr never ↦ never
      ]),
      ((λ z never. absurd never), tt),
    )

after_keys :
    (map secret_key (held (refresh settling before).1)
      ≡ codes "default/new" ∷ codes "default/app" ∷ [])
    × (map role_key (roles (refresh settling before).1)
        ≡ codes "default/app" ∷ codes "default/new" ∷ [])
unfolding refresh reconcile clean_and_sync refresh_secrets sync_role delete_orphan for_each
    next_round secrets_map roles_map owner_of index_by lookup insert text_eq is_owned_reference
    refresh_secret expires_soon soon lookup_data renew fetch_creds get_creds renewed_secret
    merge_labels with_generation put_status with_status observed sync_existing create_missing
    new_secret observe update_outdated attempt failed_by effect done ◌>>=◌ get_generation select
    labelled is_there is_current is_held store_secret drop_key put_one put_all with_files
    secret_data_of credentials_files duration_of session_duration
after_keys = (refl, refl)

keys_differ :
    (text_eq (codes "default/new") (codes "default/app") ≡ false)
    × (text_eq (codes "default/app") (codes "default/new") ≡ false)
unfolding text_eq
keys_differ = (refl, refl)

listed_all : held before ≡ before.0
unfolding select labelled lookup text_eq
listed_all = refl

settling-Calm : Calm settling IsTaken held roles
unfolding get_creds with_files secret_data_of expires_soon soon lookup_data lookup insert text_eq
    ◌+ℤ◌ credentials_files
settling-Calm = record {
  serves = both-Serves;
  serves_roles = both-ServesRoles;
  credentials = λ s role mem. (_, _, refl, (λ t. refl), (pos 1000, refl), refl, refl);
}

differ : (a b : Text) → text_eq a b ≡ false → a ≢ b
differ a b e h = let equal = (text_eq_iff a b).1 h in cc

before_readable :
    (role : AwsIamRole) (x : Secret)
    → Member role before.1
    → Member x before.0
    → role_key role ≡ secret_key x
    → (is_owned_reference role.type_meta role.object_meta x.object_meta ≡ true)
      × ((t : Time) × (some_codec.parse_time (data_at expire_key x.data_map) ≡ ok t))
      × ((g : ℤ) × (get_generation x.data_map ≡ ok g))
unfolding is_owned_reference get_generation lookup_data text_eq
before_readable role x (inl e) (inl e') same = rw (e, e') (refl, (pos 1000, refl), (pos 0, refl))
before_readable role x (inl e) (inr (inl e')) same =
    let different : role_key some_role ≡ secret_key (labelled_secret lost_secret) =
      rw (e, e') at same in
    absurd (differ _ _ refl different)
before_readable role x (inr (inl e)) (inl e') same =
    let different : role_key (role_named (codes "new")) ≡ secret_key (labelled_secret some_secret) =
      rw (e, e') at same in
    absurd (differ _ _ refl different)
before_readable role x (inr (inl e)) (inr (inl e')) same =
    let different : role_key (role_named (codes "new")) ≡ secret_key (labelled_secret lost_secret) =
      rw (e, e') at same in
    absurd (differ _ _ refl different)
before_readable role x (inr (inr never)) mem same = absurd never
before_readable role x (inl e) (inr (inr never)) same = absurd never
before_readable role x (inr (inl e)) (inr (inr never)) same = absurd never

before-Fits : Fits settling IsTaken before.0 before.1
unfolding lookup text_eq is_owned_reference get_generation lookup_data expires_soon soon
before-Fits = record {
  secrets_distinct =
      two-DistinctKeys secret_key before.0 (codes "default/app") (codes "default/lost") refl refl;
  roles_distinct =
      two-DistinctKeys role_key before.1 (codes "default/app") (codes "default/new") refl refl;
  in_scope = λ role mem. elim mem [
    | inl e ↦ rw e (inl refl, (λ taken. cc), tt, omega arith)
    | inr (inl e) ↦ rw e (inl refl, (λ taken. cc), tt, omega arith)
    | inr (inr never) ↦ absurd never
  ];
  decided = λ x mem. elim mem [
    | inl e ↦ inr (λ s. rw e refl)
    | inr (inl e) ↦ inr (λ s. rw e refl)
    | inr (inr never) ↦ absurd never
  ];
  readable = before_readable;
}

refresh-RolesSettled_example :
    (t : Both) × (refresh settling before ≡ (ok tt, t)) × RolesSettled settling (held t) (roles t)
refresh-RolesSettled_example =
    refresh-RolesSettled settling IsTaken held roles settling-Calm before
      (rw listed_all before-Fits)

refresh-again_example :
    let t = (refresh settling before).1 in
    (u : Both) × (refresh (with_record settling) (t, []) ≡ (ok tt, (u, [])))
refresh-again_example =
    refresh-again settling IsTaken held roles settling-Calm before (rw listed_all before-Fits)
      (two-DistinctKeys secret_key (held (refresh settling before).1) (codes "default/new")
        (codes "default/app") after_keys.0 keys_differ.1)
      (two-DistinctKeys role_key (roles (refresh settling before).1) (codes "default/app")
        (codes "default/new") after_keys.1 keys_differ.0)
