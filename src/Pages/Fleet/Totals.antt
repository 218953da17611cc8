-- ===== src/Pages/Fleet/Totals.antt =====
-- The page's own loop over a metric is the sum of what `getNumericMetric` returns.
use ansible_aam.Prelude.{
  String, ◌≡◌, refl, sym, ap, ◌∙◌, inl, inr, true, List, [], ◌∷◌, map, Bool-cases, or_else,
}
use ansible_aam.Prelude.Int.{ℤ, pos, ◌+ℤ◌, +ℤ_zero, zero_+ℤ, +ℤ_assoc}
use ansible_aam.Prelude.Text.{is_blank}
use ansible_aam.Prelude.Text.Numbers.{
  Number, nan, infinity, neg_infinity, int, is_finite, add, parse_int,
}
use mathlib.Core.List.{foldl}
use ansible_aam.Value.{Value, undefined, num, str}
use ansible_aam.Value.Count.{finite_or_null, as_number}
use ansible_aam.Types.{MonitoringEnvironment}
use ansible_aam.Monitoring.Snapshots.{
  get_snapshot, summary_value, number_or_zero, get_numeric_metric, get_numeric_metric-finite,
}
use ansible_aam.Pages.Fleet.{add_finite, add_value, sum_numeric_metric}

add_finite-eq-add :
    (t : ℤ) (n : Number)
    → add_finite (int t) n ≡ add (int t) (or_else (finite_or_null n) (int (pos 0)))
add_finite-eq-add t (int z) = refl
add_finite-eq-add t nan = ap int (sym (+ℤ_zero t))
add_finite-eq-add t infinity = ap int (sym (+ℤ_zero t))
add_finite-eq-add t neg_infinity = ap int (sym (+ℤ_zero t))

-- To skip a value is to add the 0 that `getNumericMetric` gives for it.
add_value-eq-add : (t : ℤ) (v : Value) → add_value (int t) v ≡ add (int t) (number_or_zero v)
unfolding add_value number_or_zero as_number
add_value-eq-add t (num n) = add_finite-eq-add t n
add_value-eq-add t (str s) = elim (Bool-cases (is_blank s)) [
  | inl e ↦ rw e (ap int (sym (+ℤ_zero t)))
  | inr e ↦ rw e (add_finite-eq-add t (parse_int s))
]
add_value-eq-add t undefined = ap int (sym (+ℤ_zero t))
add_value-eq-add t _ = ap int (sym (+ℤ_zero t))

-- A finite number, as an integer.
abbrev pub integer_of : Number → ℤ
integer_of (int z) = z
integer_of _ = pos 0

pub finite_int : (n : Number) → is_finite n ≡ true → n ≡ int (integer_of n)
finite_int (int z) h = refl
finite_int _ h = cc

-- The sum of integers.
abbrev pub total_of : List ℤ → ℤ
total_of [] = pos 0
total_of (z ∷ zs) = z +ℤ total_of zs

module _ (service key : String) where
  abbrev pub metric_of : MonitoringEnvironment → ℤ
  metric_of environment = integer_of (get_numeric_metric environment.snapshots service key)

  number_or_zero-metric_of :
      (e : MonitoringEnvironment)
      → number_or_zero (summary_value (get_snapshot e.snapshots service) key) ≡ int (metric_of e)
  unfolding get_numeric_metric
  number_or_zero-metric_of e = finite_int _ (get_numeric_metric-finite e.snapshots service key)

  -- One round of the loop.
  add_metric :
      (t : ℤ) (e : MonitoringEnvironment)
      → add_value (int t) (summary_value (get_snapshot e.snapshots service) key)
        ≡ int (t +ℤ metric_of e)
  add_metric t e =
      add_value-eq-add t (summary_value (get_snapshot e.snapshots service) key)
      ∙ ap (add (int t)) (number_or_zero-metric_of e)

  sum_from :
      (t : ℤ) (environments : List MonitoringEnvironment)
      → foldl
          (λ total environment.
            add_value total (summary_value (get_snapshot environment.snapshots service) key))
          (int t)
          environments
        ≡ int (t +ℤ total_of (map metric_of environments))
  sum_from t [] = ap int (sym (+ℤ_zero t))
  sum_from t (e ∷ environments) =
      ap
        (λ start.
          foldl
            (λ total environment.
              add_value total (summary_value (get_snapshot environment.snapshots service) key))
            start environments)
        (add_metric t e)
      ∙ sum_from (t +ℤ metric_of e) environments
      ∙ ap int (+ℤ_assoc t (metric_of e) (total_of (map metric_of environments)))

  -- The figure on the page is the sum over the environments of the metric that the findings and the
  -- detail page read by `getNumericMetric`; it is a finite number.
  pub sum_numeric_metric-eq-total :
      (environments : List MonitoringEnvironment)
      → sum_numeric_metric environments service key ≡ int (total_of (map metric_of environments))
  unfolding sum_numeric_metric
  sum_numeric_metric-eq-total environments =
      sum_from (pos 0) environments ∙ ap int (zero_+ℤ (total_of (map metric_of environments)))
