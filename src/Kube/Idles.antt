-- ===== src/Kube/Idles.antt =====
-- Steps that send nothing.
use kube_aws_iam_controller.Base.Tests.{◌≡◌, refl, inl, inr}
use kube_aws_iam_controller.Base.Lists.{List, [], ◌∷◌, Member}
use kube_aws_iam_controller.Base.Flow.{next, Step, next_round, for_each}
use kube_aws_iam_controller.Kube.Recorded.{Sent, World}

-- The step ends in `a` and sends nothing; it may read the clock.
abbrev pub Idles : {S A : Type 0} → A → Step (World S) A → Type 0
Idles {S} a m = (s : S) (log : List Sent) → (s' : S) × (m (s, log) ≡ (next a, (s', log)))

pub for_each-Idles :
    {S X : Type 0} (xs : List X) (body : X → Step (World S) Unit)
    → ((x : X) → Member x xs → Idles tt (body x))
    → Idles tt (for_each xs body)
unfolding for_each next_round
for_each-Idles [] body h s log = (s, refl)
for_each-Idles (x ∷ xs) body h s log =
    let (s1, e1) = h x (inl refl) s log in
    let (s2, e2) = for_each-Idles xs body (λ y mem. h y (inr mem)) s1 log in (s2, rw e1 e2)
