-- ===== src/Examples/Server.antt =====
-- A server that holds secrets in a list.
use kube_aws_iam_controller.Base.Tests.{
  ◌≡◌, ◌≢◌, refl, sym, ap, ◌↔◌, Bool, true, false, ◌&&◌, ◌||◌, not, if◌then◌else◌, Option, none,
  some, ◌⊎◌, inl, inr, arith, Bool-cases, some-eq,
}
use kube_aws_iam_controller.Base.Lists.{List, [], ◌∷◌, Member}
use kube_aws_iam_controller.Base.Int.{pos}
use kube_aws_iam_controller.Base.Outcome.{ok, err}
use kube_aws_iam_controller.Base.Text.{Text, codes, text_eq, text_eq_iff}
use kube_aws_iam_controller.Base.GoMap.{GoMap, lookup, UniqueKeys, lookup_of_Member}
use kube_aws_iam_controller.Kube.Types.{Secret}
use kube_aws_iam_controller.Kube.Cluster.{Cluster}
use kube_aws_iam_controller.Kube.Server.{SameKey, IsStored, Wrote, Removed, IsSelected, Serves}

-- The secrets that pass a test.
unfoldable pub select : (Secret → Bool) → List Secret → List Secret
select p [] = []
select p (x ∷ xs) = let rest = select p xs in if p x then x ∷ rest else rest

select-Member :
    (p : Secret → Bool) (xs : List Secret) (y : Secret)
    → Member y (select p xs)
    → Member y xs × (p y ≡ true)
unfolding select
select-Member p [] y mem = absurd mem
select-Member p (x ∷ xs) y mem = elim (Bool-cases (p x)) [
  | inl e ↦ elim (rw e at mem) [
    | inl same ↦ (inl same, rw same e)
    | inr later ↦ let (mem', h) = select-Member p xs y later in (inr mem', h)
  ]
  | inr e ↦ let (mem', h) = select-Member p xs y (rw e at mem) in (inr mem', h)
]

Member-select :
    (p : Secret → Bool) (xs : List Secret) (y : Secret)
    → Member y xs
    → p y ≡ true
    → Member y (select p xs)
unfolding select
Member-select p [] y mem h = absurd mem
Member-select p (x ∷ xs) y (inl same) h = elim (Bool-cases (p x)) [
  | inl e ↦ rw e (inl same)
  | inr e ↦ absurd (cc (rw same at h))
]
Member-select p (x ∷ xs) y (inr mem) h = elim (Bool-cases (p x)) [
  | inl e ↦ rw e (inr (Member-select p xs y mem h))
  | inr e ↦ rw e (Member-select p xs y mem h)
]

is_label : Text → Option Text → Bool
is_label value none = false
is_label value (some v) = text_eq v value

-- Does the secret have the labels?
unfoldable pub labelled : GoMap Text → Secret → Bool
unfolding is_label
labelled [] x = true
labelled ((k, v) ∷ labels) x = is_label v (lookup k x.labels) && labelled labels x

abbrev pub listed : GoMap Text → List Secret → List Secret
listed labels = select (labelled labels)

has_key : Text → Text → Secret → Bool
has_key namespace name y = text_eq y.namespace namespace && text_eq y.name name

unfoldable pub drop_key : Text → Text → List Secret → List Secret
unfolding has_key
drop_key namespace name = select (λ y. not (has_key namespace name y))

is_empty : List Secret → Bool
is_empty [] = true
is_empty (x ∷ xs) = false

-- Is a labelled secret of the key there?
unfoldable pub is_there : GoMap Text → Secret → List Secret → Bool
unfolding has_key is_empty
is_there labels x s = not (is_empty (select (has_key x.namespace x.name) (listed labels s)))

-- Is a labelled secret of the key there, as it was sent?
has_version : Secret → Secret → Bool
unfolding has_key
has_version x y = has_key x.namespace x.name y && text_eq y.resource_version x.resource_version

unfoldable pub is_current : GoMap Text → Secret → List Secret → Bool
unfolding is_empty has_version
is_current labels x s = not (is_empty (select (has_version x) (listed labels s)))

-- A write gives the secret a resource version of its own.
abbrev versioned : Secret → Secret
versioned x = record x {
  object_meta = record x.object_meta { resource_version = b'1' ∷ x.resource_version };
}

unfoldable pub store_secret : Secret → List Secret → List Secret
store_secret x s = versioned x ∷ drop_key x.namespace x.name s

-- The name of a secret without the labels.
abbrev pub is_taken : Text → Text → Bool
is_taken namespace name = text_eq name (codes "aws-iam-taken")

abbrev pub IsTaken : Text → Text → Type 0
IsTaken namespace name = is_taken namespace name ≡ true

abbrev pub in_memory : GoMap Text → Cluster (List Secret)
in_memory labels = record {
  list_secrets = λ namespace selector s. (ok (listed labels s), s);
  list_aws_iam_roles = λ namespace s. (ok [], s);
  update_secret = λ namespace x s.
      if is_current labels x s then (ok tt, store_secret x s) else (err (codes "conflict"), s);
  create_secret = λ namespace x s.
      if is_taken x.namespace x.name || is_there labels x s
      then (err (codes "already exists"), s)
      else (ok tt, store_secret x s);
  delete_secret = λ namespace name s. (ok tt, drop_key namespace name s);
  update_status = λ namespace role s. (ok tt, s);
  record_event = λ role event s. s;
  now = λ s. (pos 10, s);
}

is_label-some :
    (value : Text) (found : Option Text) → (is_label value found ≡ true) ↔ (found ≡ some value)
unfolding is_label
is_label-some value none = (λ e. cc, λ e. cc)
is_label-some value (some v) =
    (λ e. ap some ((text_eq_iff v value).0 e), λ e. (text_eq_iff v value).1 (some-eq e))

labelled-lookup :
    (labels : GoMap Text) (x : Secret)
    → labelled labels x ≡ true
    → (k v : Text) → lookup k labels ≡ some v
    → lookup k x.labels ≡ some v
unfolding labelled lookup
labelled-lookup [] x h k v found = absurd cc
labelled-lookup ((j, w) ∷ labels) x h k v found =
    let here : is_label w (lookup j x.labels) ≡ true = ground arith in
    elim (Bool-cases (text_eq j k)) [
      | inl e ↦
          let key = (text_eq_iff j k).0 e in
          let value : w ≡ v = some-eq (rw e at found) in
          rw (← key, ← value) ((is_label-some w (lookup j x.labels)).0 here)
      | inr e ↦ labelled-lookup labels x (ground arith) k v (rw e at found)
    ]

lookup-labelled :
    (labels : GoMap Text) (x : Secret)
    → ((k v : Text) → Member (k, v) labels → lookup k x.labels ≡ some v)
    → labelled labels x ≡ true
unfolding labelled
lookup-labelled [] x h = refl
lookup-labelled ((k, v) ∷ labels) x h =
    let here = (is_label-some v (lookup k x.labels)).1 (h k v (inl refl)) in
    let later = lookup-labelled labels x (λ k v mem. h k v (inr mem)) in rw (here, later) refl

versioned-IsStored : (x : Secret) → IsStored x (versioned x)
versioned-IsStored x = record {
  same_namespace = refl;
  same_name = refl;
  same_labels = refl;
  same_owners = refl;
  same_data = refl;
}

has_key-cases :
    (namespace name : Text) (y : Secret)
    → ((y.namespace ≡ namespace) × (y.name ≡ name) × (has_key namespace name y ≡ true))
      ⊎ ((¬ ((y.namespace ≡ namespace) × (y.name ≡ name))) × (has_key namespace name y ≡ false))
unfolding has_key
has_key-cases namespace name y = elim (Bool-cases (text_eq y.namespace namespace)) [
  | inl e ↦ elim (Bool-cases (text_eq y.name name)) [
    | inl e' ↦
        inl
          ((text_eq_iff y.namespace namespace).0 e, (text_eq_iff y.name name).0 e', rw (e, e') refl)
    | inr e' ↦ inr ((λ (n, m). let f = (text_eq_iff y.name name).1 m in cc), rw (e, e') refl)
  ]
  | inr e ↦ inr ((λ (n, m). let f = (text_eq_iff y.namespace namespace).1 n in cc), rw e refl)
]

is_empty-cases :
    (xs : List Secret)
    → ((is_empty xs ≡ false) × ((y : Secret) × Member y xs))
      ⊎ ((is_empty xs ≡ true) × ((y : Secret) → ¬ Member y xs))
unfolding is_empty
is_empty-cases [] = inr (refl, λ y mem. mem)
is_empty-cases (x ∷ xs) = inl (refl, (x, inl refl))

module _ (labels : GoMap Text) (unique : UniqueKeys labels) where
  labelled-IsSelected : (x : Secret) → labelled labels x ≡ true → IsSelected [] labels x
  labelled-IsSelected x h = record { in_scope = inl refl; labelled = labelled-lookup labels x h }

  IsSelected-labelled : (x : Secret) → IsSelected [] labels x → labelled labels x ≡ true
  IsSelected-labelled x h =
      lookup-labelled labels x (λ k v mem. h.labelled k v (lookup_of_Member k v labels unique mem))

  drop_key-Removed :
      (namespace name : Text) (s : List Secret)
      → Removed namespace name (listed labels s) (listed labels (drop_key namespace name s))
  unfolding drop_key
  drop_key-Removed namespace name s =
      let others : Secret → Bool = λ y. not (has_key namespace name y) in
      record {
        gone = λ y mem.
            let (mem', chosen) = select-Member (labelled labels) (select others s) y mem in
            let (mem'', other) = select-Member others s y mem' in
            (
              Member-select (labelled labels) s y mem'' chosen,
              λ k. elim (has_key-cases namespace name y) [
                | inl (n, m, e) ↦ cc (rw e at other)
                | inr (ne, e) ↦ ne k
              ],
            );
        kept = λ y mem ne.
            let (mem', chosen) = select-Member (labelled labels) s y mem in
            elim (has_key-cases namespace name y) [
              | inl (n, m, e) ↦ absurd (ne (n, m))
              | inr (ne', e) ↦
                  Member-select (labelled labels) (select others s) y
                    (Member-select others s y mem' (rw e refl)) chosen
            ];
      }

  store_secret-Wrote :
      (x : Secret) (s : List Secret)
      → IsSelected [] labels x
      → Wrote x (listed labels s) (listed labels (store_secret x s))
  unfolding store_secret select
  store_secret-Wrote x s h =
      let removed = drop_key-Removed x.namespace x.name s in
      let wrote : Wrote x (listed labels s)
          (versioned x ∷ listed labels (drop_key x.namespace x.name s)) =
        record {
          there = (versioned x, inl refl, versioned-IsStored x);
          new_or_old = λ y mem. elim mem [
            | inl same ↦ inl (rw same (versioned-IsStored x))
            | inr old ↦
                let (before, other) = removed.gone y old in
                inr (before, λ k. other (sym k.same_namespace, sym k.same_name))
          ];
          kept = λ y mem ne. inr (
              removed.kept y mem
                (λ (n, m). ne (record { same_namespace = sym n; same_name = sym m })));
        } in
      let here =
        IsSelected-labelled (versioned x)
          (record { in_scope = h.in_scope; labelled = h.labelled }) in
      rw here wrote

  is_current-cases :
      (x : Secret) (s : List Secret)
      → (is_current labels x s ≡ true)
        ⊎ ((is_current labels x s ≡ false)
            × ((y : Secret)
                → Member y (listed labels s)
                → SameKey x y
                → y.resource_version ≢ x.resource_version))
  unfolding is_current has_version
  is_current-cases x s =
      let p = has_version x in
      elim (is_empty-cases (select p (listed labels s))) [
        | inl (e, there) ↦ inl (rw e refl)
        | inr (e, none_left) ↦ inr (
          rw e refl,
          λ y held k same. elim (has_key-cases x.namespace x.name y) [
            | inl (n, m, there) ↦
                let current = (text_eq_iff y.resource_version x.resource_version).1 same in
                none_left y (Member-select p (listed labels s) y held (rw (there, current) refl))
            | inr (ne, other) ↦ ne (sym k.same_namespace, sym k.same_name)
          ],
        )
      ]

  is_there-cases :
      (x : Secret) (s : List Secret)
      → ((is_there labels x s ≡ true) × ((y : Secret) × Member y (listed labels s) × SameKey x y))
        ⊎ ((is_there labels x s ≡ false)
            × ((y : Secret) → Member y (listed labels s) → ¬ SameKey x y))
  unfolding is_there
  is_there-cases x s =
      let p = has_key x.namespace x.name in
      elim (is_empty-cases (select p (listed labels s))) [
        | inl (e, (y, mem)) ↦
            let (held, same) = select-Member p (listed labels s) y mem in
            elim (has_key-cases x.namespace x.name y) [
              | inl (n, m, there) ↦
                  inl (rw e refl, (y, held, record { same_namespace = sym n; same_name = sym m }))
              | inr (ne, other) ↦ absurd (cc)
            ]
        | inr (e, none_left) ↦ inr (
          rw e refl,
          λ y held k. elim (has_key-cases x.namespace x.name y) [
            | inl (n, m, there) ↦ none_left y (Member-select p (listed labels s) y held there)
            | inr (ne, other) ↦ ne (sym k.same_namespace, sym k.same_name)
          ],
        )
      ]

  pub in_memory-Serves : Serves (in_memory labels) [] labels IsTaken (listed labels)
  in_memory-Serves = record {
    lists = λ s. refl;
    selected = λ s x mem. labelled-IsSelected x (select-Member (labelled labels) s x mem).1;
    reads_clock = λ s. refl;
    updates = λ s x h. elim (is_current-cases x s) [
      | inl e ↦ inl (rw e (refl, store_secret-Wrote x s h))
      | inr (e, stale) ↦ inr (codes "conflict", rw e refl, stale, rw e refl)
    ];
    creates = λ s x h. elim (Bool-cases (is_taken x.namespace x.name)) [
      | inl e ↦ inr (codes "already exists", rw e refl, inr e, rw e refl)
      | inr free ↦ elim (is_there-cases x s) [
        | inl (e, there) ↦
            inr (codes "already exists", rw (free, e) refl, inl there, rw (free, e) refl)
        | inr (e, absent) ↦ inl (rw (free, e) (refl, store_secret-Wrote x s h))
      ]
    ];
    deletes = λ s namespace name. (cc, drop_key-Removed namespace name s);
  }
