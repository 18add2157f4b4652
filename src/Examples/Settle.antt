-- ===== src/Examples/Settle.antt =====
-- The theorems on what `refresh` of the secrets controller leaves, over a server that holds a secret
-- for a role that is no longer in use, one without data for a role in use, and one that somebody owns.
use kube_aws_iam_controller.Base.Tests.{◌≡◌, refl, sym, ap, ◌∙◌, true, false, none, inl, inr}
use kube_aws_iam_controller.Base.Lists.{List, [], ◌∷◌, ◌++◌}
use kube_aws_iam_controller.Base.Int.{pos, ◌+ℤ◌}
use kube_aws_iam_controller.Base.Outcome.{ok}
use kube_aws_iam_controller.Base.Text.{
  Text, codes, text_eq, text_eq_iff, trim_prefix, trim_prefix-append, strip_prefix,
}
use kube_aws_iam_controller.Base.GoMap.{lookup, insert, UniqueKeys}
use kube_aws_iam_controller.Kube.Types.{Secret}
use kube_aws_iam_controller.Kube.Server.{SameKey}
use kube_aws_iam_controller.RoleStore.{exists, add, new_role_store}
use kube_aws_iam_controller.RoleStore.History.{Op, adds, run, run-StoreValid}
use kube_aws_iam_controller.SecretFiles.{soon, expires_soon, lookup_data, credentials_files}
use kube_aws_iam_controller.SecretsController.Renewal.{
  SecretsController, secret_prefix, owner_labels, role_of, has_owner, get_creds,
}
use kube_aws_iam_controller.SecretsController.{refresh}
use kube_aws_iam_controller.SecretsController.Calls.{with_record}
use kube_aws_iam_controller.SecretsController.Settle.{NoneInTheWay, IsReady, Calm}
use kube_aws_iam_controller.SecretsController.Settle.Refresh.{
  Settled, refresh-Settled, refresh-twice,
}
use kube_aws_iam_controller.Examples.Controllers.{
  meta, some_secret, some_codec, some_creds, secrets_controller,
}
use kube_aws_iam_controller.Examples.Server.{
  select, labelled, listed, IsTaken, in_memory, in_memory-Serves,
}

abbrev some_pods : List Op
some_pods =
    adds (codes "writer") (codes "default") (codes "q")
    ∷ adds (codes "reader") (codes "default") (codes "p")
    ∷ []

abbrev settling : SecretsController (List Secret)
settling = record {
  client = in_memory owner_labels;
  codec = some_codec;
  interval = secrets_controller.interval;
  refresh_limit = pos 20;
  creds = some_creds;
  role_store = run some_pods;
  namespace = [];
}

abbrev owned_label : Secret → Secret
owned_label x = record x { object_meta = record x.object_meta { labels = owner_labels } }

abbrev some_secrets : List Secret
some_secrets =
    record {
      object_meta = record (meta (codes "aws-iam-gone") []) { labels = owner_labels };
      data_map = none;
    }
    ∷ record {
      object_meta = record (meta (codes "aws-iam-reader") []) { labels = owner_labels };
      data_map = none;
    }
    ∷ owned_label some_secret
    ∷ []

listed_all : listed owner_labels some_secrets ≡ some_secrets
unfolding select labelled lookup text_eq
listed_all = refl

app_unused :
    exists settling.role_store (role_of (owned_label some_secret)) (codes "default") ≡ false
unfolding exists run add lookup text_eq role_of new_role_store trim_prefix strip_prefix insert
app_unused = refl

some_secrets-NoneInTheWay : NoneInTheWay settling some_secrets
unfolding has_owner
some_secrets-NoneInTheWay y (inl e) owned = absurd (cc (rw e at owned))
some_secrets-NoneInTheWay y (inr (inl e)) owned = absurd (cc (rw e at owned))
some_secrets-NoneInTheWay y (inr (inr (inl e))) owned = rw e app_unused
some_secrets-NoneInTheWay y (inr (inr (inr never))) owned = absurd never

keys_apart : (x y : Secret) → text_eq x.name y.name ≡ false → ¬ SameKey x y
keys_apart x y e k = cc ((text_eq_iff x.name y.name).1 k.same_name)

some_secrets-IsReady : IsReady settling some_secrets
unfolding expires_soon soon lookup_data lookup text_eq has_owner
some_secrets-IsReady = record {
  distinct = (
    λ y mem. elim mem [
      | inl e ↦ keys_apart _ y (rw e refl)
      | inr (inl e) ↦ keys_apart _ y (rw e refl)
      | inr (inr never) ↦ absurd never
    ],
    (
      λ y mem. elim mem [ inl e ↦ keys_apart _ y (rw e refl) | inr never ↦ absurd never ],
      (λ y never. absurd never, tt),
    ),
  );
  out_of_the_way = some_secrets-NoneInTheWay;
  decided = λ y mem u. elim mem [
    | inl e ↦ inr (λ s. rw e refl)
    | inr (inl e) ↦ inr (λ s. rw e refl)
    | inr (inr (inl e)) ↦ absurd (cc (rw e at u))
    | inr (inr (inr never)) ↦ absurd never
  ];
}

-- The role of the name that is taken has no pods.
free_name :
    (role ns : Text)
    → exists settling.role_store role ns ≡ true
    → ¬ IsTaken ns (secret_prefix ++ role)
unfolding exists run add lookup text_eq new_role_store insert trim_prefix strip_prefix
free_name role ns used taken =
    let name : secret_prefix ++ role ≡ codes "aws-iam-taken" = (text_eq_iff _ _).0 taken in
    let same : role ≡ codes "taken" =
      sym (trim_prefix-append secret_prefix role) ∙ ap (λ n. trim_prefix n secret_prefix) name in
    cc (rw same at used)

owner_labels-UniqueKeys : UniqueKeys owner_labels
unfolding lookup
owner_labels-UniqueKeys = (refl, tt)

settling-Calm : Calm settling IsTaken (listed owner_labels)
unfolding get_creds expires_soon soon lookup_data lookup insert text_eq ◌+ℤ◌ credentials_files
settling-Calm = record {
  serves = in_memory-Serves owner_labels owner_labels-UniqueKeys;
  credentials = λ role ns s used. (_, refl, (λ t. refl), refl);
  accepted = free_name;
  in_scope = λ role ns used. inl refl;
  valid = run-StoreValid some_pods;
}

refresh-Settled_example :
    (s' : List Secret) × (refresh settling some_secrets ≡ (ok tt, s'))
    × Settled settling (listed owner_labels) s'
refresh-Settled_example =
    refresh-Settled settling IsTaken (listed owner_labels) settling-Calm some_secrets
      (rw listed_all some_secrets-IsReady)

refresh-twice_example :
    let s' = (refresh settling some_secrets).1 in
    (s'' : List Secret) × (refresh (with_record settling) (s', []) ≡ (ok tt, (s'', [])))
refresh-twice_example =
    refresh-twice settling IsTaken (listed owner_labels) settling-Calm some_secrets
      (rw listed_all some_secrets-IsReady)
