-- ===== src/Monitoring/Order.antt =====
-- The order of service entries: the monitored services first, as they are declared, whatever the
-- host's locale does.
use ansible_aam.Prelude.{
  ℕ, ◌≤◌, ◌<◌, String, ◌≡◌, ◌⊎◌, inl, inr, ◌==◌, if◌then◌else◌, true, false, List, [], ◌∷◌, arith,
  Bool-cases, All,
}
use ansible_aam.Prelude.Int.{ℤ, pos, leb_ℤ, pos_part, neg_part}
use ansible_aam.Prelude.Dict.{Dict}
use mathlib.Core.List.Perm
use mathlib.Core.List.{Perm}
use ansible_aam.Monitoring.Services.{
  monitored_services, aap_monitored_services, orchestrator_monitored_services, index_of, by_order,
  service_order, compare_services, insert_sorted, sort, ordered_service_entries,
}

-- Ascending by a measure: each item is at most all that follow.
abbrev pub Ascending {ℓ} : {A : Type ℓ} → (A → ℕ) → List A → Type 0
Ascending f [] = Unit
Ascending f (x ∷ xs) = All (λ y. f x ≤ f y) xs × Ascending f xs

-- The comparison agrees with a measure where it decides.
module _ {ℓ} {A : Type ℓ} (compare : A → A → ℤ) (f : A → ℕ)
    (before : (x y : A) → leb_ℤ (compare x y) (pos 0) ≡ true → f x ≤ f y)
    (after : (x y : A) → leb_ℤ (compare x y) (pos 0) ≡ false → f y ≤ f x) where
  All-le : (k : ℕ) (x : A) (ys : List A) → k ≤ f x → All (λ y. f x ≤ f y) ys → All (λ y. k ≤ f y) ys
  All-le k x [] h a = tt
  All-le k x (y ∷ ys) h (p, a) = (omega arith, All-le k x ys h a)

  insert_sorted-All :
      (k : ℕ) (x : A) (ys : List A)
      → k ≤ f x
      → All (λ y. k ≤ f y) ys
      → All (λ y. k ≤ f y) (insert_sorted compare x ys)
  unfolding insert_sorted
  insert_sorted-All k x [] h a = (h, tt)
  insert_sorted-All k x (y ∷ ys) h (p, a) = elim (Bool-cases (leb_ℤ (compare x y) (pos 0))) [
    | inl e ↦ rw e (h, (p, a))
    | inr e ↦ rw e (p, insert_sorted-All k x ys h a)
  ]

  insert_sorted-Ascending :
      (x : A) (ys : List A) → Ascending f ys → Ascending f (insert_sorted compare x ys)
  unfolding insert_sorted
  insert_sorted-Ascending x [] h = (tt, tt)
  insert_sorted-Ascending x (y ∷ ys) (a, h) = elim (Bool-cases (leb_ℤ (compare x y) (pos 0))) [
    | inl e ↦ rw e ((before x y e, All-le (f x) y ys (before x y e) a), (a, h))
    | inr e ↦ rw e (insert_sorted-All (f y) x ys (after x y e) a, insert_sorted-Ascending x ys h)
  ]

  sort-Ascending : (xs : List A) → Ascending f (sort compare xs)
  unfolding sort
  sort-Ascending [] = tt
  sort-Ascending (x ∷ xs) = insert_sorted-Ascending x (sort compare xs) (sort-Ascending xs)

module _ {ℓ} {A : Type ℓ} (compare : A → A → ℤ) where
  insert_sorted-perm : (x : A) (ys : List A) → Perm (insert_sorted compare x ys) (x ∷ ys)
  unfolding insert_sorted
  insert_sorted-perm x [] = Perm.refl (x ∷ [])
  insert_sorted-perm x (y ∷ ys) = elim (Bool-cases (leb_ℤ (compare x y) (pos 0))) [
    | inl e ↦ rw e (Perm.refl (x ∷ y ∷ ys))
    | inr e ↦ rw e (Perm.trans (Perm.cons y (insert_sorted-perm x ys)) (Perm.swap x y ys))
  ]

  pub sort-perm : (xs : List A) → Perm (sort compare xs) xs
  unfolding sort
  sort-perm [] = Perm.refl []
  sort-perm (x ∷ xs) =
      Perm.trans (insert_sorted-perm x (sort compare xs)) (Perm.cons x (sort-perm xs))

-- The place of a service in the list of the console: the five monitored ones in the order of their
-- declarations, and all others after them.
unfoldable pub place : String → ℕ
place service =
    if "gateway" == service
    then 0
    else if "controller" == service
    then 1
    else if "eda" == service
    then 2
    else if "hub" == service
    then 3
    else if "orchestrator" == service
    then 4
    else 5

abbrev rank : String → ℕ
rank = service_order monitored_services

by_order-before : (a b : ℕ) (tie : ℤ) → leb_ℤ (by_order a b tie) (pos 0) ≡ true → a ≤ b
by_order-before a b tie h = ground arith

by_order-after : (a b : ℕ) (tie : ℤ) → leb_ℤ (by_order a b tie) (pos 0) ≡ false → b ≤ a
by_order-after a b tie h = ground arith

by_order-swap :
    (a b : ℕ) (t u : ℤ)
    → pos_part u ≡ neg_part t
    → neg_part u ≡ pos_part t
    → (pos_part (by_order b a u) ≡ neg_part (by_order a b t))
      × (neg_part (by_order b a u) ≡ pos_part (by_order a b t))
by_order-swap a b t u p n = ground arith

-- The first five ranks are the places, and the rank of any other service is behind them.
rank-cases : (s : String) → ((rank s ≡ place s) × (place s < 5)) ⊎ ((rank s ≡ 50) × (place s ≡ 5))
unfolding service_order index_of monitored_services aap_monitored_services
    orchestrator_monitored_services place
rank-cases s = ground arith

place-le : (a b : String) → rank a ≤ rank b → place a ≤ place b
place-le a b h = ground (arith, rank-cases a, rank-cases b)

-- The entries come back as a permutation in which the gateway, the controller, EDA, the hub and the
-- orchestrator come in this order, with all other services behind them; no assumption is made on the host's `localeCompare`.
pub ordered_service_entries-Ascending :
    {T : Type 0} (locale_compare : String → String → ℤ) (services : Dict T)
    → Ascending (λ e. place e.0) (ordered_service_entries locale_compare services)
      × Perm (ordered_service_entries locale_compare services) services
unfolding ordered_service_entries compare_services
ordered_service_entries-Ascending locale_compare services = (
  sort-Ascending _ _
      (λ x y h. place-le x.0 y.0 (by_order-before (rank x.0) (rank y.0) (locale_compare x.0 y.0) h))
      (λ x y h. place-le y.0 x.0 (by_order-after (rank x.0) (rank y.0) (locale_compare x.0 y.0) h))
      services,
  sort-perm _ services,
)

-- `compareServices` is antisymmetric in sign where `localeCompare` is.
pub compare_services-swap :
    (locale_compare : String → String → ℤ) (left right : String)
    → (pos_part (locale_compare right left) ≡ neg_part (locale_compare left right))
    → (neg_part (locale_compare right left) ≡ pos_part (locale_compare left right))
    → (pos_part (compare_services locale_compare right left)
        ≡ neg_part (compare_services locale_compare left right))
      × (neg_part (compare_services locale_compare right left)
          ≡ pos_part (compare_services locale_compare left right))
unfolding compare_services
compare_services-swap locale_compare left right p n =
    by_order-swap (rank left) (rank right) (locale_compare left right) (locale_compare right left) p
      n
