-- ===== src/AwsIamRoleController/Settle/Sync.antt =====
-- The rounds of the last loop of `refresh` of awsiamrole_controller.go in a calm period.
use kube_aws_iam_controller.Base.Tests.{
  if◌then◌else◌, ◌≡◌, ◌≢◌, refl, sym, ap, ◌∙◌, none, inl, inr, Bool-cases, Option-cases,
}
use kube_aws_iam_controller.Base.Lists.{List, [], Member}
use kube_aws_iam_controller.Base.Int.{eqb_ℤ, eqb_ℤ_iff}
use kube_aws_iam_controller.Base.Outcome.{ok}
use kube_aws_iam_controller.Base.Text.{Text}
use kube_aws_iam_controller.Base.GoMap.{lookup}
use kube_aws_iam_controller.Base.GoMap.Index.{
  DistinctKeys, lookup-index_by_sound, lookup-index_by_some,
}
use kube_aws_iam_controller.Base.Flow.{Flow, done, attempt, failed_by, ◌>>=◌}
use kube_aws_iam_controller.Base.Flow.Rounds.{Over, Rounds, AllDone, for_each-AllDone}
use kube_aws_iam_controller.Credentials.Types.{Time}
use kube_aws_iam_controller.Kube.Types.{Secret, AwsIamRole}
use kube_aws_iam_controller.Kube.Server.{IsSelected}
use kube_aws_iam_controller.SecretFiles.{expire_key, data_at}
use kube_aws_iam_controller.AwsIamRoleController.Renewal.{
  AwsIamRoleController, aws_iam_role_owner_labels, observed, renewed_secret, new_secret,
  sync_existing, observe,
}
use kube_aws_iam_controller.AwsIamRoleController.{secret_key, role_key, secrets_map, sync_role}
use kube_aws_iam_controller.AwsIamRoleController.Secrets.{
  new_secret-IsCurrent, renewed_secret-IsCurrent,
}
use kube_aws_iam_controller.AwsIamRoleController.Settle.{Calm, Fits}
use kube_aws_iam_controller.AwsIamRoleController.Settle.Statuses.{listed-Observed}
use kube_aws_iam_controller.AwsIamRoleController.Settle.Good.{NonePending, Awaits}
use kube_aws_iam_controller.AwsIamRoleController.Settle.Writes.{
  create_missing-Created, update_outdated-UpdateTried, observe-Put,
}
use kube_aws_iam_controller.AwsIamRoleController.Settle.Third.{
  Syncing, Settling, HasSecret, Synced, Onward, status-Syncing, seen-Settling, pending-Syncing,
  secret-Syncing, held-Synced, kept-Synced, listed-HasSecret,
}

module _ {S : Type 0} (c : AwsIamRoleController S) (Refuses : Text → Text → Type 0)
    (held : S → List Secret) (roles : S → List AwsIamRole) (calm : Calm c Refuses held roles)
    (secrets : List Secret) (listed : List AwsIamRole) (distinct : DistinctKeys role_key listed)
    (distinct' : DistinctKeys secret_key secrets) (fits : Fits c Refuses secrets listed)
    (selected : (x : Secret)
      → Member x secrets
      → IsSelected c.namespace aws_iam_role_owner_labels x) where
  abbrev SyncRounds : AwsIamRole → S → Type 0
  SyncRounds =
      Rounds (Settling c held roles secrets listed) (Onward c held roles secrets listed)
        (Synced c held roles secrets listed) (sync_role c (secrets_map secrets))

  create_missing-Rounds :
      (role : AwsIamRole) (s : S)
      → Member role listed
      → lookup (role_key role) (secrets_map secrets) ≡ none
      → Settling c held roles secrets listed s
      → SyncRounds role s
  unfolding sync_role secrets_map new_secret lookup
  create_missing-Rounds role s mem missing h =
      let n =
        create_missing-Created c Refuses held roles calm secrets listed distinct fits role s
          h.mirrors mem in
      let new : (x : Secret) → Member x secrets → secret_key x ≢ role_key role = λ x mem' key.
        lookup-index_by_some secret_key (role_key role) secrets [] (inl (x, mem', key)) missing in
      let (scope, free, u, bounded) = fits.in_scope role mem in
      elim n.made [
        | inl (d, fresh, wrote, seen) ↦
            let current = new_secret-IsCurrent role d u bounded in
            let (sound, grown, has) =
              secret-Syncing c held roles secrets listed distinct distinct'
                (NonePending c held roles secrets listed) role (new_secret role d) d s n.after mem
                current refl fresh wrote n.stays (inl seen) h in
            record {
              after = n.after;
              over = rw (missing, sync_role) n.over;
              sound = sound;
              grown = grown;
              achieved = (mem, has, seen);
            }
        | inr (y, there, key, e) ↦
            let (sound, grown) =
              status-Syncing c held roles secrets listed (NonePending c held roles secrets listed) s
                n.after h e n.stays in
            record {
              after = n.after;
              over = rw (missing, sync_role) n.over;
              sound = sound;
              grown = grown;
              achieved =
                  elim (held-Synced c held roles secrets listed distinct distinct' role y s mem
                    there key h) [
                      | inl mem' ↦ absurd (new y mem' key)
                      | inr (has, seen) ↦ grown role (mem, has, seen)
                    ];
            }
      ]

  -- The status, once the role has its secret.
  record Noted (role : AwsIamRole) (s : S) (r : Flow (Unit {0}) × S) : Type 0 where
    after : S
    over : Over tt after r
    sound : Settling c held roles secrets listed after
    grown : Onward c held roles secrets listed s after
    achieved : Synced c held roles secrets listed role after

  note-Noted :
      (role : AwsIamRole) (x : Secret) (s : S) (t : Time)
      → Member role listed
      → c.codec.parse_time (data_at expire_key x.data_map) ≡ ok t
      → Syncing c held roles secrets listed (Awaits c held roles secrets listed role) s
      → HasSecret c held roles secrets listed role s
      → Noted role s ((if observed role then done tt else observe c role x) s)
  unfolding done
  note-Noted role x s t mem reads h (y, there, key, gen) = elim (Bool-cases (observed role)) [
    | inl seen ↦
        let now =
          listed-Observed c held roles listed Refuses calm distinct s role h.mirrors mem seen in
        record {
          after = s;
          over = rw seen (inl refl);
          sound = seen-Settling c held roles secrets listed role s now h;
          grown = λ r g. g;
          achieved = (mem, (y, there, key, gen), now);
        }
    | inr unseen ↦
        let p =
          observe-Put c Refuses held roles calm secrets listed distinct fits role x s t h.mirrors
            mem reads in
        let (sound, grown) =
          status-Syncing c held roles secrets listed (Awaits c held roles secrets listed role) s
            p.after h p.same_held p.stays in
        record {
          after = p.after;
          over = rw unseen p.over;
          sound = seen-Settling c held roles secrets listed role p.after p.seen sound;
          grown = grown;
          achieved = (mem, (y, rw p.same_held there, key, gen), p.seen);
        }
  ]

  sync_existing-Noted :
      (role : AwsIamRole) (x : Secret) (s : S)
      → Member role listed
      → Member x secrets
      → role_key role ≡ secret_key x
      → Settling c held roles secrets listed s
      → Noted role s (sync_existing c role x s)
  unfolding sync_existing ◌>>=◌ attempt failed_by renewed_secret
  sync_existing-Noted role x s mem mem' same h =
      let (owned, (t, reads), (g, gen)) = fits.readable role x mem mem' same in
      let (scope, free, u, bounded) = fits.in_scope role mem in
      elim (Bool-cases (eqb_ℤ role.generation g)) [
        | inl equal ↦
            let e = (eqb_ℤ_iff role.generation g).0 equal in
            let has =
              listed-HasSecret c held roles secrets listed distinct distinct' role x s mem mem'
                (same, owned) (gen ∙ ap ok (sym e)) h in
            rw (gen, equal)
              (note-Noted role x s t mem reads
                (pending-Syncing c held roles secrets listed
                  (Awaits c held roles secrets listed role) s h)
                has)
        | inr different ↦
            let n =
              update_outdated-UpdateTried c Refuses held roles calm secrets listed distinct fits
                role x s h.mirrors mem (same, owned) (selected x mem') in
            elim n.result [
              | inl (w, over) ↦
                  let current =
                    renewed_secret-IsCurrent role x w.secret_data u bounded (sym same) owned in
                  let (sound, grown, has) =
                    secret-Syncing c held roles secrets listed distinct distinct'
                      (Awaits c held roles secrets listed role) role
                      (renewed_secret role x w.secret_data) w.secret_data s n.after mem current refl
                      w.fresh w.wrote n.stays (inr refl) h in
                  let noted =
                    note-Noted role (renewed_secret role x w.secret_data) n.after w.readable.0 mem
                      w.readable.1 sound has in
                  record {
                    after = noted.after;
                    over = rw (gen, different, over) noted.over;
                    sound = noted.sound;
                    grown = λ r k. noted.grown r (grown r k);
                    achieved = noted.achieved;
                  }
              | inr (over, stale, unchanged) ↦
                  let (sound, grown) =
                    status-Syncing c held roles secrets listed
                      (NonePending c held roles secrets listed) s n.after h unchanged n.stays in
                  record {
                    after = n.after;
                    over = rw (gen, different, over) (inr refl);
                    sound = sound;
                    grown = grown;
                    achieved =
                        elim (kept-Synced c held roles secrets listed distinct distinct' role x s
                          mem mem' (same, owned) h) [
                            | inl there ↦ absurd (
                                stale x there (record { same_namespace = refl; same_name = refl })
                                  refl)
                            | inr (has, seen) ↦ grown role (mem, has, seen)
                          ];
                  }
            ]
      ]

  sync_role-Rounds :
      (role : AwsIamRole) (s : S)
      → Member role listed
      → Settling c held roles secrets listed s
      → SyncRounds role s
  unfolding sync_role secrets_map lookup
  sync_role-Rounds role s mem h =
      elim (Option-cases (lookup (role_key role) (secrets_map secrets))) [
        | inl missing ↦ create_missing-Rounds role s mem missing h
        | inr (x, found) ↦
            elim (lookup-index_by_sound secret_key (role_key role) secrets [] x found) [
              | inl (mem', same) ↦
                  let n = sync_existing-Noted role x s mem mem' (sym same) h in
                  record {
                    after = n.after;
                    over = rw (found, sync_role) n.over;
                    sound = n.sound;
                    grown = n.grown;
                    achieved = n.achieved;
                  }
              | inr none_there ↦ absurd cc
            ]
      ]

  pub sync_roles-AllDone :
      (s : S)
      → Settling c held roles secrets listed s
      → AllDone
          (Settling c held roles secrets listed)
          (Onward c held roles secrets listed)
          (Synced c held roles secrets listed)
          listed
          (sync_role c (secrets_map secrets))
          s
  sync_roles-AllDone s h =
      for_each-AllDone (Settling c held roles secrets listed) (Onward c held roles secrets listed)
        (Synced c held roles secrets listed) (λ s r k. k) (λ r s t g k z p. k z (g z p))
        (λ z s t g p. g z p) listed (sync_role c (secrets_map secrets)) s
        (λ role mem t k. sync_role-Rounds role t mem k) h
