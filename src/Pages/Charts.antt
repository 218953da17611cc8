-- ===== src/Pages/Charts.antt =====
-- frontend/src/components/charts.tsx: what the charts show, and the columns by day. `Date` is a
-- parameter: `start_of_day` is the time of the midnight before a time that can be read, `day_before`
-- that of the midnight some days ago, and `weekday` its label.
mod Tests
pub mod Days
pub mod Tally
use ansible_aam.Prelude.{
  ℕ, zero, suc, ◌+◌, ◌-◌, ◌*◌, ◌≤◌, ◌<◌, Char, code, String, ◌≡◌, refl, sym, ap, ◌∙◌, ◌≢◌, ◌↔◌, ◌⊎◌,
  inl, inr, Bool, true, false, not, ◌&&◌, ◌||◌, Option, none, some, List, [], ◌∷◌, ◌++◌, map, arith,
  ◌==◌, eq_iff, eq_refl, ltb, leb, eqb, if◌then◌else◌, Bool-cases, Option-cases, or_else, is_some,
  length, select, some_of, every, find, take, drop, somes, length-append, select-append,
  length-select-le, length-somes-le, All, All-append, flat_map, length-map,
}
use ansible_aam.Prelude.Int.{ℤ, pos, negsuc, ◌+ℤ◌, ltb_ℤ, leb_ℤ, eqb_ℤ}
use ansible_aam.Prelude.Dict.{
  Dict, includes, keys, lookup, insert, remove, lookup-insert, lookup-remove,
}
use ansible_aam.Prelude.Text.{
  ◌⊕◌, is_empty, or_text, trim, is_blank, String-cases, trim_idem, trim-nil, is_empty-eq,
}
use ansible_aam.Prelude.Text.Numbers.{
  Number, nan, infinity, neg_infinity, int, is_finite, truthy_number, add, less, same_number,
  parse_int, show_nat, show, parse_int-show_nat,
}
use ansible_aam.Prelude.Result.{Result, ok, err, Result-cases}
use ansible_aam.Types.{HealthSample}

pub record Slice : Type 0 where
  pub label : String
  pub value : ℕ
  pub color : String

unfoldable pub donut_total : List Slice → ℕ
donut_total [] = 0
donut_total (slice ∷ slices) = slice.value + donut_total slices

-- The slices that the donut draws; `none` is its text for nothing to chart.
unfoldable pub drawn_slices : List Slice → Option (List Slice)
unfolding donut_total
drawn_slices slices =
    if eqb (donut_total slices) 0
    then none
    else some (select (λ (slice : Slice). ltb 0 slice.value) slices)

pub record Column : Type 0 where
  pub label : String
  pub value : Option Number

abbrev is_null_or_zero : Option Number → Bool
is_null_or_zero none = true
is_null_or_zero (some n) = same_number n (int (pos 0))

-- Whether ColumnChart draws its columns and not its text for no activity.
unfoldable pub draws_columns : List Column → Bool
draws_columns items =
    let has_number = some_of (λ (item : Column). is_some item.value) items in
    let all_zero = every (λ (item : Column). is_null_or_zero item.value) items in
    let any_gap = some_of (λ (item : Column). not (is_some item.value)) items in
    not (not has_number || (all_zero && not any_gap))

-- `days` numbers down to 0: how many days ago each column is.
abbrev pub days_ago : ℕ → List ℕ
days_ago zero = []
days_ago (suc days) = days ∷ days_ago days

pub record Bucket : Type 0 where
  pub day : ℤ
  pub value : ℕ

-- `buckets.find(…)`, and `match.value += 1`.
unfoldable pub count_day : ℤ → List Bucket → List Bucket
count_day day [] = []
count_day day (bucket ∷ buckets) =
    if eqb_ℤ bucket.day day
    then record { day = bucket.day; value = bucket.value + 1 } ∷ buckets
    else bucket ∷ count_day day buckets

-- A time that cannot be read is left out.
abbrev pub count_option : Option ℤ → List Bucket → List Bucket
count_option none buckets = buckets
count_option (some day) buckets = count_day day buckets

pub record ScoreBucket : Type 0 where
  pub day : ℤ
  pub total : Number
  pub count : ℕ

unfoldable pub add_score : ℤ → Number → List ScoreBucket → List ScoreBucket
add_score day score [] = []
add_score day score (bucket ∷ buckets) =
    if eqb_ℤ bucket.day day
    then record { day = bucket.day; total = add bucket.total score; count = bucket.count + 1 }
      ∷ buckets
    else bucket ∷ add_score day score buckets

module _ (start_of_day : String → Option ℤ) (day_before : ℕ → ℤ) (weekday : ℤ → String) where
  unfoldable pub count_days : List String → List Bucket → List Bucket
  unfolding count_day
  count_days [] buckets = buckets
  count_days (timestamp ∷ timestamps) buckets =
      count_days timestamps (count_option (start_of_day timestamp) buckets)

  unfoldable pub activity_buckets : List String → ℕ → List Bucket
  unfolding count_days
  activity_buckets timestamps days =
      count_days timestamps (map (λ n. record { day = day_before n; value = 0 }) (days_ago days))

  unfoldable pub activity_by_day : List String → ℕ → List Column
  unfolding activity_buckets
  activity_by_day timestamps days =
      map
        (λ (bucket : Bucket). record {
          label = weekday bucket.day;
          value = some (int (pos bucket.value));
        })
        (activity_buckets timestamps days)

  unfoldable pub add_scores : List HealthSample → List ScoreBucket → List ScoreBucket
  unfolding add_score
  add_scores [] buckets = buckets
  add_scores (sample ∷ samples) buckets =
      add_scores samples (elim (start_of_day sample.collected_at) [
        | none ↦ buckets
        | some day ↦ add_score day sample.health_score buckets
      ])

  -- `rounded_mean` is `Math.round(total / count)`.
  unfoldable pub average_score_by_day : (Number → ℕ → Number) → List HealthSample → ℕ → List Column
  unfolding add_scores
  average_score_by_day rounded_mean samples days =
      map
        (λ (bucket : ScoreBucket). record {
          label = weekday bucket.day;
          value =
              if eqb bucket.count 0 then none else some (rounded_mean bucket.total bucket.count);
        })
        (add_scores samples (
          map (λ n. record { day = day_before n; total = int (pos 0); count = 0 }) (days_ago days)))
