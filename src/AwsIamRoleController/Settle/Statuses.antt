-- ===== src/AwsIamRoleController/Settle/Statuses.antt =====
-- The AWSIAMRoles that the API server holds during a `refresh` of awsiamrole_controller.go: those that
-- were listed, with a status that only comes to be of their generation.
use kube_aws_iam_controller.Base.Tests.{◌≡◌, refl, sym, ap, ◌∙◌, true, ◌⊎◌, inl, inr}
use kube_aws_iam_controller.Base.Lists.{List, Member}
use kube_aws_iam_controller.Base.Text.{Text}
use kube_aws_iam_controller.Base.GoMap.Index.{DistinctKeys}
use kube_aws_iam_controller.Base.Flow.{Flow}
use kube_aws_iam_controller.Base.Flow.Rounds.{Over, attempt_of_ok, attempt_of_err}
use kube_aws_iam_controller.Credentials.Types.{Time}
use kube_aws_iam_controller.Kube.Types.{Secret, AwsIamRole}
use kube_aws_iam_controller.Kube.RoleServer.{SameRole, PutStatus}
use kube_aws_iam_controller.AwsIamRoleController.Renewal.{
  AwsIamRoleController, observed, with_status, put_status,
}
use kube_aws_iam_controller.AwsIamRoleController.{role_key}
use kube_aws_iam_controller.AwsIamRoleController.Settle.{Calm, DistinctKeys-same}
use kube_aws_iam_controller.AwsIamRoleController.Settle.Same.{
  SameRole-key, SameRole-refl, SameRole-trans, observed_of_status, with_status-observed,
}

module _ {S : Type 0} (c : AwsIamRoleController S) (held : S → List Secret)
    (roles : S → List AwsIamRole) (listed : List AwsIamRole) where
  -- The roles are those that were listed, as they were listed or with a status of the generation.
  pub record Mirrors (s : S) : Type 0 where
    pub from :
        (y : AwsIamRole)
        → Member y (roles s)
        → (x : AwsIamRole) × Member x listed × SameRole x y × ((y ≡ x) ⊎ (observed y ≡ true))
    pub to :
        (x : AwsIamRole) → Member x listed → (y : AwsIamRole) × Member y (roles s) × SameRole x y

  -- The role of the key has a status of its generation.
  abbrev pub Observed : Text → S → Type 0
  Observed key s = (y : AwsIamRole) → Member y (roles s) → role_key y ≡ key → observed y ≡ true

  -- The roles are as they are to be, and no status was lost.
  pub record Stays (s t : S) : Type 0 where
    pub mirrors : Mirrors t
    pub seen : (key : Text) → Observed key s → Observed key t

  pub same-Stays : (s t : S) → roles t ≡ roles s → Mirrors s → Stays s t
  same-Stays s t e m = record {
    mirrors = record {
      from = λ y mem. m.from y (rw (← e) mem);
      to = λ x mem. let (y, mem', h) = m.to x mem in (y, rw e mem', h);
    };
    seen = λ key h y mem. h y (rw (← e) mem);
  }

  pub Stays-trans : (r s t : S) → Stays r s → Stays s t → Stays r t
  Stays-trans r s t h k = record { mirrors = k.mirrors; seen = λ key g. k.seen key (h.seen key g) }

  -- Writing a status, whether there is a role for it or not.
  pub record Put (x : AwsIamRole) (s : S) (r : Flow (Unit {0}) × S) : Type 0 where
    pub after : S
    pub over : Over tt after r
    pub same_held : held after ≡ held s
    pub stays : Stays s after
    pub seen : Observed (role_key x) after

  pub start-Mirrors : (s : S) → roles s ≡ listed → Mirrors s
  start-Mirrors s e = record {
    from = λ y mem. (y, rw e at mem, SameRole-refl y, inl refl);
    to = λ x mem. (x, rw e mem, SameRole-refl x);
  }

  module _ (Refuses : Text → Text → Type 0) (calm : Calm c Refuses held roles)
      (distinct : DistinctKeys role_key listed) where
    -- A held role of the key of a listed one is that one.
    pub Mirrors-same :
        (s : S) (x y : AwsIamRole)
        → Mirrors s
        → Member x listed
        → Member y (roles s)
        → role_key y ≡ role_key x
        → SameRole x y × ((y ≡ x) ⊎ (observed y ≡ true))
    Mirrors-same s x y m mem mem' e =
        let (z, listed', h, status) = m.from y mem' in
        let same =
          DistinctKeys-same role_key listed z x distinct listed' mem
            (sym (SameRole-key z y h) ∙ e) in
        rw (← same) (h, status)

    pub listed-Observed :
        (s : S) (x : AwsIamRole)
        → Mirrors s
        → Member x listed
        → observed x ≡ true
        → Observed (role_key x) s
    listed-Observed s x m mem seen y mem' e =
        let (h, status) = Mirrors-same s x y m mem mem' e in
        elim status [ inl same ↦ rw same seen | inr there ↦ there ]

    PutStatus-Stays :
        (s t : S) (x : AwsIamRole) (role_arn : Text) (expiration : Time)
        → Mirrors s
        → Member x listed
        → PutStatus (with_status x role_arn expiration) (roles s) (roles t)
        → Stays s t × Observed (role_key x) t
    unfolding with_status
    PutStatus-Stays s t x role_arn expiration m mem p =
        let of_key : (y : AwsIamRole)
            → Member y (roles t)
            → role_key y ≡ role_key x
            → SameRole x y × (observed y ≡ true) =
          λ y mem' e.
            let (z, before, h, _) = p.from y mem' in
            let (k, _) = Mirrors-same s x z m mem before (sym (SameRole-key z y h) ∙ e) in
            let same = SameRole-trans x z y k h in
            (
              same,
              observed_of_status (with_status x role_arn expiration) y
                  (p.put y mem' same.same_namespace same.same_name) same.same_generation
                  (with_status-observed x role_arn expiration),
            ) in
        (
          record {
            mirrors = record {
              from = λ y mem'.
                  let (z, before, h, status) = p.from y mem' in
                  let (w, there, k, status') = m.from z before in
                  (
                    w,
                    there,
                    SameRole-trans w z y k h,
                    elim status [
                      | inl (n, n') ↦ inr (of_key y mem' (rw (n, n') refl)).1
                      | inr e ↦ elim status' [ inl e' ↦ inl (e ∙ e') | inr g ↦ inr (rw e g) ]
                    ],
                  );
              to = λ z there.
                  let (y, before, h) = m.to z there in
                  let (w, after, k) = p.kept y before in (w, after, SameRole-trans z y w h k);
            };
            seen = λ key g y mem' e.
                let (z, before, h, status) = p.from y mem' in
                elim status [
                  | inl (n, n') ↦ (of_key y mem' (rw (n, n') refl)).1
                  | inr e' ↦ rw e' (g z before (sym (SameRole-key z y h) ∙ e))
                ];
          },
          λ y mem' e. (of_key y mem' e).1,
        )

    pub put_status-Put :
        (x : AwsIamRole) (role_arn : Text) (expiration : Time) (s : S)
        → Mirrors s
        → Member x listed
        → Put x s (put_status c x role_arn expiration s)
    unfolding put_status with_status
    put_status-Put x role_arn expiration s m mem =
        let status = with_status x role_arn expiration in
        let put = c.client.update_status x.namespace status in
        let (same, answer) = calm.serves_roles.statuses s status in
        elim answer [
          | inl (accepted, p) ↦
              let (stays, seen) = PutStatus-Stays s (put s).1 x role_arn expiration m mem p in
              record {
                after = (put s).1;
                over = inl (attempt_of_ok put (λ e s. s) s tt accepted);
                same_held = same;
                stays = stays;
                seen = seen;
              }
          | inr (e, refused, stale, unchanged) ↦ record {
            after = (put s).1;
            over = inr (attempt_of_err put (λ e s. s) s e refused);
            same_held = same;
            stays = same-Stays s (put s).1 unchanged m;
            seen = λ y mem' e'.
                let before : Member y (roles s) = rw unchanged at mem' in
                let (h, status) = Mirrors-same s x y m mem before e' in
                elim status [
                  | inl same ↦ absurd (
                      stale y before h.same_namespace h.same_name
                        (ap (λ z. z.resource_version) same))
                  | inr seen ↦ seen
                ];
          }
        ]
