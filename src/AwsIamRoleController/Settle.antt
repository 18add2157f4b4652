-- ===== src/AwsIamRoleController/Settle.antt =====
-- What one `refresh` of awsiamrole_controller.go leaves behind, over an API server that no other client
-- writes to.
pub mod Same
pub mod Statuses
pub mod Calls
pub mod Writes
pub mod Good
pub mod First
pub mod Second
pub mod Third
pub mod Sync
pub mod Refresh
use kube_aws_iam_controller.Base.Tests.{◌≡◌, sym, ap, ◌∙◌, true, false, Option, some, ◌⊎◌, inl, inr}
use kube_aws_iam_controller.Base.Lists.{List, [], ◌∷◌, Member}
use kube_aws_iam_controller.Base.Int.{ℤ}
use kube_aws_iam_controller.Base.Outcome.{ok}
use kube_aws_iam_controller.Base.Text.{Text}
use kube_aws_iam_controller.Base.GoMap.{UniqueKeys}
use kube_aws_iam_controller.Base.GoMap.Index.{DistinctKeys}
use kube_aws_iam_controller.Credentials.Types.{Time, Credentials}
use kube_aws_iam_controller.Decimal.RoundTrip.{IsInt64}
use kube_aws_iam_controller.Kube.Types.{Secret, SecretData, AwsIamRole}
use kube_aws_iam_controller.Kube.Server.{Serves}
use kube_aws_iam_controller.Kube.RoleServer.{ServesRoles}
use kube_aws_iam_controller.SecretFiles.{
  expires_soon, expire_key, lookup_data, data_at, get_generation, is_owned_reference,
}
use kube_aws_iam_controller.AwsIamRoleController.Renewal.{
  AwsIamRoleController, aws_iam_role_owner_labels, session_duration, get_creds,
}
use kube_aws_iam_controller.AwsIamRoleController.{secret_key, role_key}
use kube_aws_iam_controller.AwsIamRoleController.Idle.{IsFresh}

-- The role owns the secret of its name and namespace.
abbrev pub Owns : AwsIamRole → Secret → Type 0
Owns role secret =
    (role_key role ≡ secret_key secret)
    × (is_owned_reference role.type_meta role.object_meta secret.object_meta ≡ true)

-- Elements of the same key are the same.
pub DistinctKeys-same :
    {X : Type 0} (key : X → Text) (xs : List X) (x y : X)
    → DistinctKeys key xs
    → Member x xs
    → Member y xs
    → key x ≡ key y
    → x ≡ y
DistinctKeys-same key [] x y d mem mem' e = absurd mem
DistinctKeys-same key (z ∷ zs) x y (new, d) (inl h) (inl h') e = h ∙ sym h'
DistinctKeys-same key (z ∷ zs) x y (new, d) (inl h) (inr mem') e =
    absurd (new y mem' (sym e ∙ ap key h))
DistinctKeys-same key (z ∷ zs) x y (new, d) (inr mem) (inl h') e =
    absurd (new x mem (e ∙ ap key h'))
DistinctKeys-same key (z ∷ zs) x y (new, d) (inr mem) (inr mem') e =
    DistinctKeys-same key zs x y d mem mem' e

module _ {S : Type 0} (c : AwsIamRoleController S) where
  abbrev pub IsFreshData : SecretData → Type 0
  IsFreshData d =
      (s : S)
      → (expires_soon c.codec c.client c.refresh_limit (lookup_data expire_key (some d)) s).0
        ≡ false

  -- The credentials of the secret are due, whenever the clock is read.
  abbrev pub IsDue : Secret → Type 0
  IsDue y =
      (s : S)
      → (expires_soon c.codec c.client c.refresh_limit (lookup_data expire_key y.data_map) s).0
        ≡ true

  -- A period of the world in which no other client writes the secrets of the controller or the
  -- roles, and credentials are given and last.
  pub record Calm (Refuses : Text → Text → Type 0) (held : S → List Secret)
      (roles : S → List AwsIamRole) : Type 0 where
    pub serves : Serves c.client c.namespace aws_iam_role_owner_labels Refuses held
    pub serves_roles : ServesRoles c.client c.namespace held roles
    pub credentials :
        (s : S) (role : AwsIamRole)
        → Member role (roles s)
        → let r = get_creds c role.spec.role_reference (session_duration role.spec) s in
          (creds : Credentials) × (d : SecretData) × (r.0 ≡ ok (creds, d))
          × IsFreshData d
          × ((t : Time) × (c.codec.parse_time (data_at expire_key (some d)) ≡ ok t))
          × (held r.1 ≡ held s)
          × (roles r.1 ≡ roles s)

  -- The roles and secrets that a refresh lists: no two have the same name and namespace; the controller
  -- can write the secrets of the roles; no secret comes due in the period that was not due before; and
  -- a secret of the name and namespace of a role is owned by it and can be read.
  pub record Fits (Refuses : Text → Text → Type 0) (secrets : List Secret) (roles : List AwsIamRole)
      : Type 0 where
    pub secrets_distinct : DistinctKeys secret_key secrets
    pub roles_distinct : DistinctKeys role_key roles
    pub in_scope :
        (role : AwsIamRole)
        → Member role roles
        → ((c.namespace ≡ []) ⊎ (c.namespace ≡ role.namespace))
          × (¬ Refuses role.namespace role.name)
          × UniqueKeys role.labels
          × IsInt64 role.generation
    pub decided : (x : Secret) → Member x secrets → IsFresh c x ⊎ IsDue x
    pub readable :
        (role : AwsIamRole) (x : Secret)
        → Member role roles
        → Member x secrets
        → role_key role ≡ secret_key x
        → (is_owned_reference role.type_meta role.object_meta x.object_meta ≡ true)
          × ((t : Time) × (c.codec.parse_time (data_at expire_key x.data_map) ≡ ok t))
          × ((g : ℤ) × (get_generation x.data_map ≡ ok g))
