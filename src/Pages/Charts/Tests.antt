-- ===== src/Pages/Charts/Tests.antt =====
-- The theorem on the columns by day at three times.
use ansible_aam.Prelude.{
  ℕ, ◌-◌, String, ◌≡◌, refl, Option, none, some, List, [], ◌∷◌, map, ◌==◌, if◌then◌else◌,
}
use ansible_aam.Prelude.Int.{ℤ, pos, eqb_ℤ}
use ansible_aam.Pages.Charts.{days_ago, activity_buckets}
use ansible_aam.Pages.Charts.Days.{total}
use ansible_aam.Pages.Charts.Tally.{buckets_of, tally, activity_buckets-eq}

-- Two days and a text that is no time.
abbrev start_of_day : String → Option ℤ
start_of_day s =
    if s == "Monday noon" then some (pos 10) else if s == "Tuesday" then some (pos 11) else none

abbrev day_before : ℕ → ℤ
day_before n = pos (12 - n)

abbrev weekday : ℤ → String
weekday day = if eqb_ℤ day (pos 10) then "Mon" else "Tue"

abbrev times : List String
times = "Monday noon" ∷ "never" ∷ "Tuesday" ∷ "Monday noon" ∷ []

activity_buckets-eq_example :
    activity_buckets start_of_day day_before weekday times 4
    ≡ buckets_of (tally start_of_day (λ _. 0) times) (map day_before (days_ago 4))
activity_buckets-eq_example =
    activity_buckets-eq start_of_day day_before weekday times 4 (refl, (refl, (refl, (refl, tt))))

three-counted : total (activity_buckets start_of_day day_before weekday times 7) ≡ 3
unfolding activity_buckets
three-counted = refl
