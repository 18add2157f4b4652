-- ===== src/AwsIamRoleController/Settle/Calls.antt =====
-- The single calls of `refresh` of awsiamrole_controller.go for one role in a calm period.
use kube_aws_iam_controller.Base.Tests.{◌≡◌, refl, sym, ap, ◌∙◌, none, some, inl, inr}
use kube_aws_iam_controller.Base.Lists.{List, [], Member}
use kube_aws_iam_controller.Base.Outcome.{ok}
use kube_aws_iam_controller.Base.Text.{Text}
use kube_aws_iam_controller.Base.GoMap.Index.{DistinctKeys}
use kube_aws_iam_controller.Base.Flow.{next}
use kube_aws_iam_controller.Base.Flow.Rounds.{attempt_of_ok}
use kube_aws_iam_controller.Credentials.Types.{Time, Credentials}
use kube_aws_iam_controller.Kube.Types.{Secret, SecretData, AwsIamRole}
use kube_aws_iam_controller.Kube.Cluster.{Event}
use kube_aws_iam_controller.Kube.Server.{SameKey, Wrote, IsSelected}
use kube_aws_iam_controller.SecretFiles.{expire_key, data_at, lookup_data}
use kube_aws_iam_controller.AwsIamRoleController.Renewal.{
  AwsIamRoleController, aws_iam_role_owner_labels, session_duration, get_creds, fetch_creds,
  renewed_secret, event, put_status,
}
use kube_aws_iam_controller.AwsIamRoleController.{role_key}
use kube_aws_iam_controller.AwsIamRoleController.Secrets.{renewed_secret-IsCurrent}
use kube_aws_iam_controller.AwsIamRoleController.Freshness.{lookup-with_generation}
use kube_aws_iam_controller.AwsIamRoleController.Settle.{Owns, IsFreshData, Calm, Fits}
use kube_aws_iam_controller.AwsIamRoleController.Settle.Statuses.{
  Mirrors, Stays, same-Stays, Stays-trans, Put, put_status-Put,
}

-- There is a secret of the key of this one.
abbrev pub Kept : {S : Type 0} → (S → List Secret) → Secret → S → Type 0
Kept held x s = (y : Secret) × Member y (held s) × SameKey x y

module _ {S : Type 0} (c : AwsIamRoleController S) (held : S → List Secret)
    (roles : S → List AwsIamRole) (listed : List AwsIamRole) where
  -- New credentials, with nothing else changed.
  pub record Fetched (role : AwsIamRole) (s : S) : Type 0 where
    pub creds : Credentials
    pub secret_data : SecretData
    pub after : S
    pub over : fetch_creds c role s ≡ (next (creds, secret_data), after)
    pub fresh : IsFreshData c secret_data
    pub readable : (t : Time) × (c.codec.parse_time (data_at expire_key (some secret_data)) ≡ ok t)
    pub same_held : held after ≡ held s
    pub stays : Stays c held roles listed s after

module _ {S : Type 0} (c : AwsIamRoleController S) (Refuses : Text → Text → Type 0)
    (held : S → List Secret) (roles : S → List AwsIamRole) (calm : Calm c Refuses held roles)
    (secrets : List Secret) (listed : List AwsIamRole) (distinct : DistinctKeys role_key listed)
    (fits : Fits c Refuses secrets listed) where
  pub renewed_secret-data_at :
      (role : AwsIamRole) (x : Secret) (d : SecretData)
      → data_at expire_key (renewed_secret role x d).data_map ≡ data_at expire_key (some d)
  unfolding renewed_secret data_at lookup_data
  renewed_secret-data_at role x d =
      ap (λ o. elim o as (λ x. Text) [ none ↦ [] | some value ↦ value ])
        (lookup-with_generation c role.generation d)

  pub fetch_creds-Fetched :
      (role : AwsIamRole) (s : S)
      → Mirrors c held roles listed s
      → Member role listed
      → Fetched c held roles listed role s
  unfolding fetch_creds
  fetch_creds-Fetched role s m mem =
      let (y, mem', same) = m.to role mem in
      let (creds, d, got, fresh, readable, same_held, same_roles) =
        let given = calm.credentials s y mem' in rw same.same_spec at given in
      record {
        creds = creds;
        secret_data = d;
        after = (get_creds c role.spec.role_reference (session_duration role.spec) s).1;
        over =
            attempt_of_ok (get_creds c role.spec.role_reference (session_duration role.spec)) _ s
              (creds, d) got;
        fresh = fresh;
        readable = readable;
        same_held = same_held;
        stays = same-Stays c held roles listed s _ same_roles m;
      }

  pub renewed_secret-IsSelected :
      (role : AwsIamRole) (x : Secret) (d : SecretData)
      → Member role listed
      → Owns role x
      → IsSelected c.namespace aws_iam_role_owner_labels x
      → IsSelected c.namespace aws_iam_role_owner_labels (renewed_secret role x d)
  unfolding renewed_secret
  renewed_secret-IsSelected role x d mem (same, owned) selected =
      let (scope, free, u, bounded) = fits.in_scope role mem in
      let current = renewed_secret-IsCurrent role x d u bounded (sym same) owned in
      record { in_scope = selected.in_scope; labelled = current.0 }

  -- An update of a secret that is held as it was listed is accepted.
  pub update-Wrote :
      (role : AwsIamRole) (x : Secret) (d : SecretData) (s : S)
      → Member role listed
      → Owns role x
      → IsSelected c.namespace aws_iam_role_owner_labels x
      → Member x (held s)
      → let r = c.client.update_secret x.namespace (renewed_secret role x d) s in
        (r.0 ≡ ok tt) × Wrote (renewed_secret role x d) (held s) (held r.1)
  unfolding renewed_secret
  update-Wrote role x d s mem owns selected there =
      elim (calm.serves.updates s (renewed_secret role x d)
        (renewed_secret-IsSelected role x d mem owns selected)) [
          | inl accepted ↦ accepted
          | inr (e, refused, stale, unchanged) ↦
              absurd (stale x there (record { same_namespace = refl; same_name = refl }) refl)
        ]

  -- The event after an update or a creation, and then the status.
  pub report-Put :
      (role : AwsIamRole) (event : Event) (role_arn : Text) (expiration : Time) (s : S)
      → Mirrors c held roles listed s
      → Member role listed
      → Put c held roles listed role s
          (put_status c role role_arn expiration (c.client.record_event role event s))
  report-Put role event role_arn expiration s m mem =
      let (same_held, same_roles) = calm.serves_roles.event_keeps s role event in
      let reported = same-Stays c held roles listed s _ same_roles m in
      let put =
        put_status-Put c held roles listed Refuses calm distinct role role_arn expiration _
          reported.mirrors mem in
      record {
        after = put.after;
        over = put.over;
        same_held = put.same_held ∙ same_held;
        stays = Stays-trans c held roles listed s _ _ reported put.stays;
        seen = put.seen;
      }
