-- ===== src/AwsIamRoleController/Settle/Writes.antt =====
-- What `refresh` of awsiamrole_controller.go does for one role in a calm period.
use kube_aws_iam_controller.Base.Tests.{◌≡◌, ◌≢◌, refl, ap, ◌∙◌, ◌⊎◌, inl, inr}
use kube_aws_iam_controller.Base.Lists.{List, Member}
use kube_aws_iam_controller.Base.Outcome.{ok}
use kube_aws_iam_controller.Base.Text.{Text, codes}
use kube_aws_iam_controller.Base.GoMap.Index.{DistinctKeys}
use kube_aws_iam_controller.Base.Flow.{Flow, next, skip, attempt, failed_by, ◌>>=◌}
use kube_aws_iam_controller.Base.Flow.Rounds.{Over, attempt_of_ok, attempt_of_err}
use kube_aws_iam_controller.Credentials.Types.{Time}
use kube_aws_iam_controller.Kube.Types.{Secret, SecretData, AwsIamRole}
use kube_aws_iam_controller.Kube.Cluster.{normal, warning, credentials_until, secret_error}
use kube_aws_iam_controller.Kube.Server.{SameKey, Wrote, IsSelected}
use kube_aws_iam_controller.SecretFiles.{expire_key, role_arn_key, data_at}
use kube_aws_iam_controller.AwsIamRoleController.Renewal.{
  AwsIamRoleController, aws_iam_role_owner_labels, renew, renewed_secret, new_secret, event,
  update_outdated, observe, create_missing,
}
use kube_aws_iam_controller.AwsIamRoleController.{secret_key, role_key}
use kube_aws_iam_controller.AwsIamRoleController.Secrets.{new_secret-IsCurrent}
use kube_aws_iam_controller.AwsIamRoleController.Settle.{Owns, IsFreshData, Calm, Fits}
use kube_aws_iam_controller.AwsIamRoleController.Settle.Statuses.{
  Mirrors, Observed, Stays, same-Stays, Stays-trans, Put, put_status-Put,
}
use kube_aws_iam_controller.AwsIamRoleController.Settle.Calls.{
  fetch_creds-Fetched, renewed_secret-IsSelected, update-Wrote, report-Put, renewed_secret-data_at,
}

module _ {S : Type 0} (c : AwsIamRoleController S) (held : S → List Secret)
    (roles : S → List AwsIamRole) (listed : List AwsIamRole) where
  -- A secret was renewed for its role, and the status of the role was written.
  pub record Renewed (role : AwsIamRole) (x : Secret) (s : S) (r : Flow (Unit {0}) × S)
      : Type 0 where
    pub secret_data : SecretData
    pub after : S
    pub over : Over tt after r
    pub fresh : IsFreshData c secret_data
    pub wrote : Wrote (renewed_secret role x secret_data) (held s) (held after)
    pub stays : Stays c held roles listed s after
    pub seen : Observed c held roles listed (role_key role) after

  -- A secret of another generation was renewed, or the held one is not the listed one any more.
  pub record Updated (role : AwsIamRole) (x : Secret) (s t : S) : Type 0 where
    pub secret_data : SecretData
    pub fresh : IsFreshData c secret_data
    pub readable :
        (t : Time) × (c.codec.parse_time
            (data_at expire_key (renewed_secret role x secret_data).data_map)
          ≡ ok t)
    pub wrote : Wrote (renewed_secret role x secret_data) (held s) (held t)

  -- The update was refused.
  abbrev pub Stale : Secret → S → Type 0
  Stale x s =
      (y : Secret) → Member y (held s) → SameKey x y → y.resource_version ≢ x.resource_version

  pub record UpdateTried (role : AwsIamRole) (x : Secret) (s : S) (r : Flow Secret × S)
      : Type 0 where
    pub after : S
    pub stays : Stays c held roles listed s after
    pub result :
        ((u : Updated role x s after) × (r ≡ (next (renewed_secret role x u.secret_data), after)))
        ⊎ ((r ≡ (skip, after)) × Stale x s × (held after ≡ held s))

  -- A new secret was created and the status written, or there was one of the name.
  pub record Created (role : AwsIamRole) (s : S) (r : Flow (Unit {0}) × S) : Type 0 where
    pub after : S
    pub over : Over tt after r
    pub stays : Stays c held roles listed s after
    pub made :
        ((d : SecretData) × IsFreshData c d
          × Wrote (new_secret role d) (held s) (held after)
          × Observed c held roles listed (role_key role) after)
        ⊎ ((y : Secret) × Member y (held s)
            × (secret_key y ≡ role_key role)
            × (held after ≡ held s))

module _ {S : Type 0} (c : AwsIamRoleController S) (Refuses : Text → Text → Type 0)
    (held : S → List Secret) (roles : S → List AwsIamRole) (calm : Calm c Refuses held roles)
    (secrets : List Secret) (listed : List AwsIamRole) (distinct : DistinctKeys role_key listed)
    (fits : Fits c Refuses secrets listed) where
  pub renew-Renewed :
      (role : AwsIamRole) (x : Secret) (s : S)
      → Mirrors c held roles listed s
      → Member role listed
      → Owns role x
      → IsSelected c.namespace aws_iam_role_owner_labels x
      → Member x (held s)
      → Renewed c held roles listed role x s (renew c role x s)
  unfolding renew ◌>>=◌
  renew-Renewed role x s m mem owns selected there =
      let f =
        fetch_creds-Fetched c Refuses held roles calm secrets listed distinct fits role s m mem in
      let d = f.secret_data in
      let update = c.client.update_secret x.namespace (renewed_secret role x d) in
      let (accepted, wrote) =
        update-Wrote c Refuses held roles calm secrets listed distinct fits role x d f.after mem
          owns selected (rw f.same_held there) in
      let sent = attempt_of_ok update (λ e s. s) f.after tt accepted in
      let kept =
        same-Stays c held roles listed f.after (update f.after).1
          (calm.serves_roles.update_keeps f.after x.namespace (renewed_secret role x d))
          f.stays.mirrors in
      let put =
        report-Put c Refuses held roles calm secrets listed distinct fits role
          (event normal (codes "UpdateCredentials")
            (credentials_until f.creds.role_arn f.creds.expiration))
          f.creds.role_arn f.creds.expiration (update f.after).1 kept.mirrors mem in
      record {
        secret_data = d;
        after = put.after;
        over = rw (f.over, sent) put.over;
        fresh = f.fresh;
        wrote = rw (put.same_held, ← f.same_held) wrote;
        stays =
            Stays-trans c held roles listed s _ _ f.stays
              (Stays-trans c held roles listed f.after _ _ kept put.stays);
        seen = put.seen;
      }

  pub update_outdated-UpdateTried :
      (role : AwsIamRole) (x : Secret) (s : S)
      → Mirrors c held roles listed s
      → Member role listed
      → Owns role x
      → IsSelected c.namespace aws_iam_role_owner_labels x
      → UpdateTried c held roles listed role x s (update_outdated c role x s)
  unfolding update_outdated ◌>>=◌ renewed_secret
  update_outdated-UpdateTried role x s m mem owns selected =
      let f =
        fetch_creds-Fetched c Refuses held roles calm secrets listed distinct fits role s m mem in
      let d = f.secret_data in
      let update = c.client.update_secret x.namespace (renewed_secret role x d) in
      let failed : Text → S → S = λ e.
        c.client.record_event role
          (event warning (codes "UpdateSecretFailed") (secret_error x.namespace x.name e)) in
      let s1 = (update f.after).1 in
      let kept =
        same-Stays c held roles listed f.after s1
          (calm.serves_roles.update_keeps f.after x.namespace (renewed_secret role x d))
          f.stays.mirrors in
      elim (calm.serves.updates f.after (renewed_secret role x d) (
        renewed_secret-IsSelected c Refuses held roles calm secrets listed distinct fits role x d
          mem owns selected)) [
            | inl (accepted, wrote) ↦
                let sent = attempt_of_ok update failed f.after tt accepted in
                let report =
                  event normal (codes "UpdateCredentials")
                    (credentials_until f.creds.role_arn f.creds.expiration) in
                let (same_held, same_roles) = calm.serves_roles.event_keeps s1 role report in
                record {
                  after = c.client.record_event role report s1;
                  stays = Stays-trans c held roles listed s _ _ f.stays (
                      Stays-trans c held roles listed f.after _ _ kept
                        (same-Stays c held roles listed s1 _ same_roles kept.mirrors));
                  result = inl (
                    record {
                      secret_data = d;
                      fresh = f.fresh;
                      readable = (
                        f.readable.0,
                        ap c.codec.parse_time (
                              renewed_secret-data_at c Refuses held roles calm secrets listed
                                distinct fits role x d)
                            ∙ f.readable.1,
                      );
                      wrote = rw (same_held, ← f.same_held) wrote;
                    },
                    rw (f.over, sent) refl,
                  );
                }
            | inr (e, refused, stale, unchanged) ↦
                let sent = attempt_of_err update failed f.after e refused in
                let (same_held, same_roles) = calm.serves_roles.event_keeps s1 role (
                  event warning (codes "UpdateSecretFailed") (secret_error x.namespace x.name e)) in
                record {
                  after = failed e s1;
                  stays = Stays-trans c held roles listed s _ _ f.stays (
                      Stays-trans c held roles listed f.after _ _ kept
                        (same-Stays c held roles listed s1 _ same_roles kept.mirrors));
                  result = inr (
                    rw (f.over, sent) refl,
                    (λ y there k.
                        stale y (rw f.same_held there)
                          (record { same_namespace = k.same_namespace; same_name = k.same_name })),
                    same_held ∙ unchanged ∙ f.same_held,
                  );
                }
          ]

  -- The status is written from a secret whose expiry can be read.
  pub observe-Put :
      (role : AwsIamRole) (x : Secret) (s : S) (t : Time)
      → Mirrors c held roles listed s
      → Member role listed
      → c.codec.parse_time (data_at expire_key x.data_map) ≡ ok t
      → Put c held roles listed role s (observe c role x s)
  unfolding observe ◌>>=◌ attempt failed_by
  observe-Put role x s t m mem reads = rw reads (
      put_status-Put c held roles listed Refuses calm distinct role
        (data_at role_arn_key x.data_map) t s m mem)

  new_secret-IsSelected :
      (role : AwsIamRole) (d : SecretData)
      → Member role listed
      → IsSelected c.namespace aws_iam_role_owner_labels (new_secret role d)
  unfolding new_secret
  new_secret-IsSelected role d mem =
      let (scope, free, u, bounded) = fits.in_scope role mem in
      record { in_scope = scope; labelled = (new_secret-IsCurrent role d u bounded).0 }

  pub create_missing-Created :
      (role : AwsIamRole) (s : S)
      → Mirrors c held roles listed s
      → Member role listed
      → Created c held roles listed role s (create_missing c role s)
  unfolding create_missing ◌>>=◌ new_secret
  create_missing-Created role s m mem =
      let f =
        fetch_creds-Fetched c Refuses held roles calm secrets listed distinct fits role s m mem in
      let d = f.secret_data in
      let create = c.client.create_secret role.namespace (new_secret role d) in
      let s1 = (create f.after).1 in
      let failed : Text → S → S = λ e.
        c.client.record_event role
          (event warning (codes "CreateSecretFailed") (secret_error role.namespace role.name e)) in
      let kept =
        same-Stays c held roles listed f.after s1
          (calm.serves_roles.create_keeps f.after role.namespace (new_secret role d))
          f.stays.mirrors in
      elim (calm.serves.creates f.after (new_secret role d) (new_secret-IsSelected role d mem)) [
        | inl (accepted, wrote) ↦
            let sent = attempt_of_ok create failed f.after tt accepted in
            let put =
              report-Put c Refuses held roles calm secrets listed distinct fits role
                (event normal (codes "CreateCredentials")
                  (credentials_until f.creds.role_arn f.creds.expiration))
                f.creds.role_arn f.creds.expiration s1 kept.mirrors mem in
            record {
              after = put.after;
              over = rw (f.over, sent) put.over;
              stays =
                  Stays-trans c held roles listed s _ _ f.stays
                    (Stays-trans c held roles listed f.after _ _ kept put.stays);
              made = inl (d, f.fresh, rw (put.same_held, ← f.same_held) wrote, put.seen);
            }
        | inr (e, refused, inr invalid, unchanged) ↦
            let (scope, free, u, bounded) = fits.in_scope role mem in absurd (free invalid)
        | inr (e, refused, inl (y, there, k), unchanged) ↦
            let sent = attempt_of_err create failed f.after e refused in
            let (same_held, same_roles) = calm.serves_roles.event_keeps s1 role (
              event warning (codes "CreateSecretFailed")
                (secret_error role.namespace role.name e)) in
            record {
              after = failed e s1;
              over = rw (f.over, sent) (inr refl);
              stays = Stays-trans c held roles listed s _ _ f.stays (
                  Stays-trans c held roles listed f.after _ _ kept
                    (same-Stays c held roles listed s1 _ same_roles kept.mirrors));
              made = inr (
                y,
                rw (← f.same_held) there,
                rw (k.same_namespace, k.same_name) refl,
                same_held ∙ unchanged ∙ f.same_held,
              );
            }
      ]
