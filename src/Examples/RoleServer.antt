-- ===== src/Examples/RoleServer.antt =====
-- A server that holds secrets and AWSIAMRoles in two lists.
use kube_aws_iam_controller.Base.Tests.{
  ◌≡◌, refl, sym, ap, ◌∙◌, Bool, true, false, ◌&&◌, ◌||◌, arith, if◌then◌else◌, ◌⊎◌, inl, inr,
  Bool-cases,
}
use kube_aws_iam_controller.Base.Lists.{List, [], ◌∷◌, Member}
use kube_aws_iam_controller.Base.Int.{pos}
use kube_aws_iam_controller.Base.Outcome.{ok, err}
use kube_aws_iam_controller.Base.Text.{codes, text_eq, text_eq_iff}
use kube_aws_iam_controller.Base.GoMap.{lookup, UniqueKeys}
use kube_aws_iam_controller.Kube.Types.{Secret, AwsIamRole}
use kube_aws_iam_controller.Kube.Cluster.{Cluster}
use kube_aws_iam_controller.Kube.Server.{Serves}
use kube_aws_iam_controller.Kube.RoleServer.{SameRole, PutStatus, ServesRoles}
use kube_aws_iam_controller.AwsIamRoleController.Renewal.{aws_iam_role_owner_labels}
use kube_aws_iam_controller.Examples.Server.{IsTaken, listed, in_memory, in_memory-Serves}

abbrev pub Both : Type 0
Both = List Secret × List AwsIamRole

-- The role with another status, and a resource version of its own.
abbrev pub with_put : AwsIamRole → AwsIamRole → AwsIamRole
with_put role x = record x {
  object_meta = record x.object_meta { resource_version = b'1' ∷ role.resource_version };
  status = role.status;
}

-- The status of the role of that namespace and name.
unfoldable pub put_one : AwsIamRole → AwsIamRole → AwsIamRole
put_one role x =
    if text_eq x.namespace role.namespace && text_eq x.name role.name then with_put role x else x

-- Is the role there, as it was sent?
unfoldable pub is_held : AwsIamRole → List AwsIamRole → Bool
is_held role [] = false
is_held role (x ∷ xs) =
    (text_eq x.namespace role.namespace
      && text_eq x.name role.name
      && text_eq x.resource_version role.resource_version)
    || is_held role xs

unfoldable pub put_all : AwsIamRole → List AwsIamRole → List AwsIamRole
put_all role [] = []
put_all role (x ∷ xs) = put_one role x ∷ put_all role xs

abbrev pub secrets_server : Cluster (List Secret)
secrets_server = in_memory aws_iam_role_owner_labels

-- The server for the secrets, with roles beside them.
abbrev pub both_in_memory : Cluster Both
both_in_memory = record {
  list_secrets = λ ns labels s. ((secrets_server.list_secrets ns labels s.0).0, s);
  list_aws_iam_roles = λ ns s. (ok s.1, s);
  update_secret = λ ns x s. let r = secrets_server.update_secret ns x s.0 in (r.0, (r.1, s.1));
  create_secret = λ ns x s. let r = secrets_server.create_secret ns x s.0 in (r.0, (r.1, s.1));
  delete_secret =
      λ ns name s. let r = secrets_server.delete_secret ns name s.0 in (r.0, (r.1, s.1));
  update_status = λ ns role s.
      if is_held role s.1 then (ok tt, (s.0, put_all role s.1)) else (err (codes "conflict"), s);
  record_event = λ role event s. s;
  now = λ s. (pos 10, s);
}

put_one-cases :
    (role x : AwsIamRole)
    → ((x.namespace ≡ role.namespace) × (x.name ≡ role.name) × (put_one role x ≡ with_put role x))
      ⊎ ((¬ ((x.namespace ≡ role.namespace) × (x.name ≡ role.name))) × (put_one role x ≡ x))
unfolding put_one
put_one-cases role x = elim (Bool-cases (text_eq x.namespace role.namespace)) [
  | inl e ↦ elim (Bool-cases (text_eq x.name role.name)) [
    | inl e' ↦ inl (
      (text_eq_iff x.namespace role.namespace).0 e,
      (text_eq_iff x.name role.name).0 e',
      rw (e, e') refl,
    )
    | inr e' ↦ inr ((λ (n, m). let f = (text_eq_iff x.name role.name).1 m in cc), rw (e, e') refl)
  ]
  | inr e ↦ inr ((λ (n, m). let f = (text_eq_iff x.namespace role.namespace).1 n in cc), rw e refl)
]

put_one-SameRole : (role x : AwsIamRole) → SameRole x (put_one role x)
put_one-SameRole role x = elim (put_one-cases role x) [
  | inl (n, m, e) ↦ rw e (record {
    same_type = refl;
    same_namespace = refl;
    same_name = refl;
    same_uid = refl;
    same_generation = refl;
    same_spec = refl;
  })
  | inr (ne, e) ↦ rw e (record {
    same_type = refl;
    same_namespace = refl;
    same_name = refl;
    same_uid = refl;
    same_generation = refl;
    same_spec = refl;
  })
]

put_all-from :
    (role : AwsIamRole) (xs : List AwsIamRole) (y : AwsIamRole)
    → Member y (put_all role xs)
    → (x : AwsIamRole) × Member x xs × (y ≡ put_one role x)
unfolding put_all
put_all-from role [] y mem = absurd mem
put_all-from role (x ∷ xs) y (inl e) = (x, inl refl, e)
put_all-from role (x ∷ xs) y (inr mem) =
    let (z, mem', e) = put_all-from role xs y mem in (z, inr mem', e)

Member-put_all :
    (role : AwsIamRole) (xs : List AwsIamRole) (x : AwsIamRole)
    → Member x xs
    → Member (put_one role x) (put_all role xs)
unfolding put_all
Member-put_all role [] x mem = absurd mem
Member-put_all role (y ∷ xs) x (inl e) = inl (ap (put_one role) e)
Member-put_all role (y ∷ xs) x (inr mem) = inr (Member-put_all role xs x mem)

put_all-PutStatus : (role : AwsIamRole) (xs : List AwsIamRole) → PutStatus role xs (put_all role xs)
put_all-PutStatus role xs = record {
  put = λ y mem n m.
      let (x, mem', e) = put_all-from role xs y mem in
      let h = put_one-SameRole role x in
      elim (put_one-cases role x) [
        | inl (n', m', e') ↦ ap (λ z. z.status) (e ∙ e')
        | inr (ne, e') ↦
            absurd
              (ne (ap (λ z. z.namespace) (sym (e ∙ e')) ∙ n, ap (λ z. z.name) (sym (e ∙ e')) ∙ m))
      ];
  from = λ y mem.
      let (x, mem', e) = put_all-from role xs y mem in
      (
        x,
        mem',
        rw e (put_one-SameRole role x),
        elim (put_one-cases role x) [
          | inl (n', m', e') ↦
              inl (ap (λ z. z.namespace) (e ∙ e') ∙ n', ap (λ z. z.name) (e ∙ e') ∙ m')
          | inr (ne, e') ↦ inr (e ∙ e')
        ],
      );
  kept = λ x mem. (put_one role x, Member-put_all role xs x mem, put_one-SameRole role x);
}

is_held_of_Member :
    (role y : AwsIamRole) (xs : List AwsIamRole)
    → Member y xs
    → y.namespace ≡ role.namespace
    → y.name ≡ role.name
    → y.resource_version ≡ role.resource_version
    → is_held role xs ≡ true
unfolding is_held
is_held_of_Member role y [] mem n m v = absurd mem
is_held_of_Member role y (x ∷ xs) (inl e) n m v =
    let n' = (text_eq_iff x.namespace role.namespace).1 (rw (← e) n) in
    let m' = (text_eq_iff x.name role.name).1 (rw (← e) m) in
    let v' = (text_eq_iff x.resource_version role.resource_version).1 (rw (← e) v) in
    rw (n', m', v') refl
is_held_of_Member role y (x ∷ xs) (inr mem) n m v =
    let later = is_held_of_Member role y xs mem n m v in ground arith

role_labels-UniqueKeys : UniqueKeys aws_iam_role_owner_labels
unfolding lookup text_eq
role_labels-UniqueKeys = (refl, (refl, tt))

abbrev pub held : Both → List Secret
held s = listed aws_iam_role_owner_labels s.0

abbrev pub roles : Both → List AwsIamRole
roles s = s.1

pub both-Serves : Serves both_in_memory [] aws_iam_role_owner_labels IsTaken held
both-Serves =
    let serves = in_memory-Serves aws_iam_role_owner_labels role_labels-UniqueKeys in
    record {
      lists = λ s. refl;
      selected = λ s. serves.selected s.0;
      reads_clock = λ s. refl;
      updates = λ s. serves.updates s.0;
      creates = λ s. serves.creates s.0;
      deletes = λ s. serves.deletes s.0;
    }

pub both-ServesRoles : ServesRoles both_in_memory [] held roles
both-ServesRoles = record {
  lists_roles = λ s. refl;
  clock_keeps = λ s. refl;
  update_keeps = λ s ns x. refl;
  create_keeps = λ s ns x. refl;
  delete_keeps = λ s ns name. refl;
  event_keeps = λ s role event. (refl, refl);
  statuses = λ s role. elim (Bool-cases (is_held role s.1)) [
    | inl e ↦ rw e (refl, inl (refl, put_all-PutStatus role s.1))
    | inr e ↦ rw e (
      refl,
      inr (
        codes "conflict",
        refl,
        (λ y mem n m v. let there = is_held_of_Member role y s.1 mem n m v in cc),
        refl,
      ),
    )
  ];
}
