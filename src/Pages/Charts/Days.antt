-- ===== src/Pages/Charts/Days.antt =====
-- The columns by day count each time once.
use ansible_aam.Prelude.{
  ℕ, suc, ◌+◌, String, ◌≡◌, refl, ap, ◌∙◌, inl, inr, Bool, false, Option, none, some, List, [], ◌∷◌,
  map, arith, if◌then◌else◌, Bool-cases, length, select, some_of,
}
use ansible_aam.Prelude.Int.{ℤ, eqb_ℤ}
use ansible_aam.Pages.Charts.{
  Bucket, days_ago, count_day, count_option, count_days, activity_buckets,
}

abbrev pub total : List Bucket → ℕ
total [] = 0
total (bucket ∷ buckets) = bucket.value + total buckets

abbrev pub days_of : List Bucket → List ℤ
days_of buckets = map (λ (bucket : Bucket). bucket.day) buckets

abbrev pub has_day : List ℤ → ℤ → Bool
has_day days day = some_of (λ d. eqb_ℤ d day) days

-- Whether a time was read and is on one of some days.
abbrev pub is_on : List ℤ → Option ℤ → Bool
is_on days none = false
is_on days (some day) = has_day days day

days-count_day :
    (day : ℤ) (buckets : List Bucket) → days_of (count_day day buckets) ≡ days_of buckets
unfolding count_day
days-count_day day [] = refl
days-count_day day (b ∷ buckets) = elim (Bool-cases (eqb_ℤ b.day day)) [
  | inl e ↦ rw e refl
  | inr e ↦ rw e (ap (b.day ∷◌) (days-count_day day buckets))
]

total-count_day :
    (day : ℤ) (buckets : List Bucket)
    → total (count_day day buckets)
      ≡ (if has_day (days_of buckets) day then suc (total buckets) else total buckets)
unfolding count_day
total-count_day day [] = refl
total-count_day day (b ∷ buckets) = elim (Bool-cases (eqb_ℤ b.day day)) [
  | inl e ↦ rw e (omega arith)
  | inr e ↦ rw e (ground (arith, total-count_day day buckets))
]

days-count_option :
    (day : Option ℤ) (buckets : List Bucket) → days_of (count_option day buckets) ≡ days_of buckets
days-count_option none buckets = refl
days-count_option (some day) buckets = days-count_day day buckets

total-count_option :
    (day : Option ℤ) (buckets : List Bucket)
    → total (count_option day buckets)
      ≡ (if is_on (days_of buckets) day then suc (total buckets) else total buckets)
total-count_option none buckets = refl
total-count_option (some day) buckets = total-count_day day buckets

total-zero :
    (day_before : ℕ → ℤ) (ns : List ℕ)
    → total (map (λ n. record { day = day_before n; value = 0 }) ns) ≡ 0
total-zero day_before [] = refl
total-zero day_before (n ∷ ns) = omega (arith, total-zero day_before ns)

days-zero :
    (day_before : ℕ → ℤ) (ns : List ℕ)
    → days_of (map (λ n. record { day = day_before n; value = 0 }) ns) ≡ map day_before ns
days-zero day_before [] = refl
days-zero day_before (n ∷ ns) = ap (day_before n ∷◌) (days-zero day_before ns)

module _ (start_of_day : String → Option ℤ) (day_before : ℕ → ℤ) (weekday : ℤ → String) where
  abbrev pub counts : List ℤ → List String → List String
  counts days timestamps = select (λ timestamp. is_on days (start_of_day timestamp)) timestamps

  total-count_days :
      (timestamps : List String) (buckets : List Bucket)
      → total (count_days start_of_day day_before weekday timestamps buckets)
        ≡ total buckets + length (counts (days_of buckets) timestamps)
  unfolding count_days
  total-count_days [] buckets = omega arith
  total-count_days (t ∷ ts) buckets =
      let ih = total-count_days ts (count_option (start_of_day t) buckets) in
      let same : length (counts (days_of (count_option (start_of_day t) buckets)) ts)
          ≡ length (counts (days_of buckets) ts) =
        ap (λ days. length (counts days ts)) (days-count_option (start_of_day t) buckets) in
      let one = total-count_option (start_of_day t) buckets in ground (arith, ih, same, one)

-- The values of the columns of the activity sum to the
-- number of the times that can be read and are on one of the days: each is counted in one column,
-- even where two columns stand for the same day.
pub activity_buckets-sum :
    (start_of_day : String → Option ℤ) (day_before : ℕ → ℤ) (weekday : ℤ → String)
    (timestamps : List String) (days : ℕ)
    → (total (activity_buckets start_of_day day_before weekday timestamps days)
        ≡ length
            (counts start_of_day day_before weekday (map day_before (days_ago days)) timestamps))
unfolding activity_buckets
activity_buckets-sum start_of_day day_before weekday timestamps days =
    total-count_days start_of_day day_before weekday timestamps
      (map (λ n. record { day = day_before n; value = 0 }) (days_ago days))
    ∙ omega (arith, total-zero day_before (days_ago days), same)
  where
    same :
        length (
          counts start_of_day day_before weekday
            (days_of (map (λ n. record { day = day_before n; value = 0 }) (days_ago days)))
            timestamps)
        ≡ length
            (counts start_of_day day_before weekday (map day_before (days_ago days)) timestamps)
    same =
        ap (λ ds. length (counts start_of_day day_before weekday ds timestamps))
          (days-zero day_before (days_ago days))
