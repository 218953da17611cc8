-- ===== src/Pages/Charts/Tally.antt =====
-- The columns by day agree with a count of each day.
use ansible_aam.Prelude.{
  ℕ, ◌+◌, String, ◌≡◌, refl, sym, ap, ◌∙◌, inl, inr, true, false, Option, none, some, List, [], ◌∷◌,
  map, arith, if◌then◌else◌, Bool-cases, length, select,
}
use ansible_aam.Prelude.Int.{ℤ, pos, negsuc, eqb_ℤ}
use ansible_aam.Pages.Charts.{
  Bucket, days_ago, count_day, count_option, count_days, activity_buckets,
}
use ansible_aam.Pages.Charts.Days.{has_day, is_on}

-- The specification: a bucket for each day, with how often it occurs.
abbrev pub buckets_of : (ℤ → ℕ) → List ℤ → List Bucket
buckets_of f days = map (λ day. record { day = day; value = f day }) days

abbrev pub AreDistinct : List ℤ → Type 0
AreDistinct [] = Unit
AreDistinct (d ∷ ds) = (has_day ds d ≡ false) × AreDistinct ds

-- One more on a day.
abbrev bump : ℤ → (ℤ → ℕ) → ℤ → ℕ
bump day f d = if eqb_ℤ d day then f d + 1 else f d

eqb_ℤ-eq : (a b : ℤ) → eqb_ℤ a b ≡ true → a ≡ b
eqb_ℤ-eq (pos m) (pos n) h = ap pos (ground (arith, h))
eqb_ℤ-eq (pos m) (negsuc n) h = absurd (ground (arith, h))
eqb_ℤ-eq (negsuc m) (pos n) h = absurd (ground (arith, h))
eqb_ℤ-eq (negsuc m) (negsuc n) h = ap negsuc (ground (arith, h))

unbumped :
    (day : ℤ) (f : ℤ → ℕ) (ds : List ℤ)
    → has_day ds day ≡ false
    → buckets_of f ds ≡ buckets_of (bump day f) ds
unbumped day f [] h = refl
unbumped day f (d ∷ ds) h = elim (Bool-cases (eqb_ℤ d day)) [
  | inl e ↦ absurd (ground (arith, e, h))
  | inr e ↦
      rw e (ap (record { day = d; value = f d } ∷◌) (unbumped day f ds (ground (arith, e, h))))
]

bumped :
    (day : ℤ) (f : ℤ → ℕ) (ds : List ℤ)
    → AreDistinct ds
    → count_day day (buckets_of f ds) ≡ buckets_of (bump day f) ds
unfolding count_day
bumped day f [] h = refl
bumped day f (d ∷ ds) h = elim (Bool-cases (eqb_ℤ d day)) [
  | inl e ↦ rw e (
      ap (record { day = d; value = f d + 1 } ∷◌)
        (unbumped day f ds (ap (has_day ds) (sym (eqb_ℤ-eq d day e)) ∙ h.0)))
  | inr e ↦ rw e (ap (record { day = d; value = f d } ∷◌) (bumped day f ds h.1))
]

-- How often a day is among some times, after a start.
abbrev pub tally : (String → Option ℤ) → (ℤ → ℕ) → List String → ℤ → ℕ
tally start_of_day f timestamps day =
    f day + length (select (λ timestamp. is_on (day ∷ []) (start_of_day timestamp)) timestamps)

buckets-cong :
    (f g : ℤ → ℕ) (ds : List ℤ) → ((d : ℤ) → f d ≡ g d) → buckets_of f ds ≡ buckets_of g ds
buckets-cong f g [] h = refl
buckets-cong f g (d ∷ ds) h = ground (arith, h d, buckets-cong f g ds h)

abbrev bump_option : Option ℤ → (ℤ → ℕ) → ℤ → ℕ
bump_option none f = f
bump_option (some day) f = bump day f

bumped_option :
    (day : Option ℤ) (f : ℤ → ℕ) (ds : List ℤ)
    → AreDistinct ds
    → count_option day (buckets_of f ds) ≡ buckets_of (bump_option day f) ds
bumped_option none f ds h = refl
bumped_option (some day) f ds h = bumped day f ds h

tally-bump :
    (start_of_day : String → Option ℤ) (o : Option ℤ) (f : ℤ → ℕ) (t : String) (ts : List String)
    (d : ℤ)
    → start_of_day t ≡ o
    → tally start_of_day (bump_option o f) ts d ≡ tally start_of_day f (t ∷ ts) d
tally-bump start_of_day none f t ts d e = rw e refl
tally-bump start_of_day (some day) f t ts d e = elim (Bool-cases (eqb_ℤ d day)) [
  | inl b ↦ rw (e, b) (omega arith)
  | inr b ↦ rw (e, b) refl
]

module _ (start_of_day : String → Option ℤ) (day_before : ℕ → ℤ) (weekday : ℤ → String) where
  tallied :
      (timestamps : List String) (f : ℤ → ℕ) (ds : List ℤ)
      → AreDistinct ds
      → count_days start_of_day day_before weekday timestamps (buckets_of f ds)
        ≡ buckets_of (tally start_of_day f timestamps) ds
  unfolding count_days
  tallied [] f ds h = buckets-cong f (tally start_of_day f []) ds (λ d. omega arith)
  tallied (t ∷ ts) f ds h =
      let o = start_of_day t in
      ap (count_days start_of_day day_before weekday ts) (bumped_option o f ds h)
      ∙ tallied ts (bump_option o f) ds h
      ∙ buckets-cong _ _ ds (λ d. tally-bump start_of_day o f t ts d refl)

zero-buckets :
    (day_before : ℕ → ℤ) (ns : List ℕ)
    → map (λ n. record { day = day_before n; value = 0 }) ns
      ≡ buckets_of (λ _. 0) (map day_before ns)
zero-buckets day_before [] = refl
zero-buckets day_before (n ∷ ns) =
    ap (record { day = day_before n; value = 0 } ∷◌) (zero-buckets day_before ns)

-- When the columns stand for different days, the columns of the activity are those of the days, in
-- order, each with the number of the times that are on its day; a time that cannot be read, or is on
-- none of the days, is in no column.
pub activity_buckets-eq :
    (start_of_day : String → Option ℤ) (day_before : ℕ → ℤ) (weekday : ℤ → String)
    (timestamps : List String) (days : ℕ)
    → AreDistinct (map day_before (days_ago days))
    → activity_buckets start_of_day day_before weekday timestamps days
      ≡ buckets_of (tally start_of_day (λ _. 0) timestamps) (map day_before (days_ago days))
unfolding activity_buckets
activity_buckets-eq start_of_day day_before weekday timestamps days h =
    ap (count_days start_of_day day_before weekday timestamps)
      (zero-buckets day_before (days_ago days))
    ∙ tallied start_of_day day_before weekday timestamps (λ _. 0) (map day_before (days_ago days)) h
