-- ===== src/RoleStore/History.antt =====
-- The store of role_store.go after any sequence of calls of `Add` and `Remove`.
use kube_aws_iam_controller.Base.Tests.{◌≡◌, ◌↔◌, Bool, true, false, not, ◌&&◌, ◌||◌}
use kube_aws_iam_controller.Base.Lists.{List, [], ◌∷◌}
use kube_aws_iam_controller.Base.Text.{Text}
use kube_aws_iam_controller.RoleStore.{RoleStore, new_role_store, exists, add, remove}
use kube_aws_iam_controller.RoleStore.Invariant.{
  StoreValid, new_role_store-StoreValid, add-StoreValid, remove-StoreValid,
}
use kube_aws_iam_controller.RoleStore.Refinement.{
  has, same, has-add, has-remove, has-new_role_store, exists-has,
}

-- A call, with its role, namespace and pod.
pub data Op : Type 0 where
  adds removes : Text → Text → Text → Op

step : Op → RoleStore → RoleStore
step (adds r n p) s = add s r n p
step (removes r n p) s = remove s r n p

-- The calls in reverse order: the latest comes first.
unfoldable pub run : List Op → RoleStore
unfolding step
run [] = new_role_store
run (op ∷ earlier) = step op (run earlier)

-- The latest call about the triple is an `Add`.
unfoldable pub latest_adds : List Op → Text → Text → Text → Bool
latest_adds [] r n p = false
latest_adds (adds r' n' p' ∷ earlier) r n p = same r' n' p' r n p || latest_adds earlier r n p
latest_adds (removes r' n' p' ∷ earlier) r n p =
    latest_adds earlier r n p && not (same r' n' p' r n p)

-- After any calls of `Add` and `Remove` the store has unique keys at each level, and no namespace and
-- no role in it is left without entries.
pub run-StoreValid : (ops : List Op) → StoreValid (run ops)
unfolding run
run-StoreValid [] = new_role_store-StoreValid
run-StoreValid (adds r n p ∷ earlier) = add-StoreValid (run earlier) r n p (run-StoreValid earlier)
run-StoreValid (removes r n p ∷ earlier) =
    remove-StoreValid (run earlier) r n p (run-StoreValid earlier)

has-run : (ops : List Op) (r n p : Text) → has (run ops) r n p ≡ latest_adds ops r n p
unfolding run latest_adds
has-run [] r n p = has-new_role_store r n p
has-run (adds r' n' p' ∷ earlier) r n p =
    rw (has-add (run earlier) r' n' p' r n p, has-run earlier r n p)
has-run (removes r' n' p' ∷ earlier) r n p =
    rw (has-remove (run earlier) r' n' p' r n p, has-run earlier r n p)

-- After any calls of `Add` and `Remove`, `Exists` holds of a role and a namespace exactly when for
-- some pod the latest call about the three is an `Add`.
pub exists-run :
    (ops : List Op) (r n : Text)
    → (exists (run ops) r n ≡ true) ↔ ((p : Text) × (latest_adds ops r n p ≡ true))
exists-run ops r n =
    let (there, back) = exists-has (run ops) r n (run-StoreValid ops) in
    (λ e. let (p, h) = there e in (p, rw has-run at h), λ w. back (w.0, rw has-run w.1))
