-- ===== src/Pages/Dashboard.antt =====
-- frontend/src/pages/dashboard.tsx, lines 31-85: the colour of a state, the sums over the fleet and
-- the coverage that is shown. The keys that the page sums are not `length`, so a text or a list in
-- the place of a summary has no value.
use ansible_aam.Prelude.{
  ℕ, String, ◌≡◌, refl, sym, ap, ◌∙◌, inl, inr, Bool, true, false, not, ◌&&◌, ◌||◌, Option, none,
  some, List, [], ◌∷◌, ◌++◌, map, arith, ◌==◌, eq_iff, eq_refl, if◌then◌else◌, Bool-cases, take,
  All,
}
use mathlib.Core.Path.{subst}
use ansible_aam.Prelude.Int.{pos, sub_ℕ}
use ansible_aam.Prelude.Dict.{Dict, includes, keys}
use ansible_aam.Prelude.Text.{is_empty, trim}
use ansible_aam.Prelude.Text.Numbers.{Number, int, is_finite, add, parse_int}
use mathlib.Core.List.{foldl}
use ansible_aam.Value.{Value, undefined, num, str, obj, entries, get}
use ansible_aam.Types.{EnvironmentSummary, MonitoringEnvironment}
use ansible_aam.Monitoring.Services.{insert_sorted, sort}
use ansible_aam.Monitoring.Snapshots.{get_snapshot, summary_value}
use ansible_aam.Pages.Fleet.{add_value, sum_numeric_metric}

pub data ProgressVariant : Type 0 where
  danger success warning : ProgressVariant

unfoldable pub get_progress_variant : (String → String) → String → Option ProgressVariant
get_progress_variant to_lower_case name =
    let normalized = to_lower_case name in
    if includes ("compliant" ∷ "healthy" ∷ "success" ∷ []) normalized
    then some success
    else if includes ("warning" ∷ "queued" ∷ "running" ∷ []) normalized
    then some warning
    else if includes ("critical" ∷ "failed" ∷ "non_compliant" ∷ "error" ∷ []) normalized
    then some danger
    else none

-- `object?.[key]`.
abbrev member : String → Value → Value
member key (obj fields) = get key (entries fields)
member key _ = undefined

-- `environment.summary.service_summaries[service]?.[key]`.
unfoldable pub service_value : String → String → Dict Value → Value
unfolding get entries
service_value service key summary = member key (member service (get "service_summaries" summary))

-- The body of the page's `reduce`, over the value of the key: the page's own copy of the loop.
unfoldable pub add_summary_value : Number → Value → Number
unfolding parse_int trim
add_summary_value total (num n) = if is_finite n then add total n else total
add_summary_value total (str s) =
    if is_empty (trim s)
    then total
    else let parsed = parse_int s in if is_finite parsed then add total parsed else total
add_summary_value total _ = total

unfoldable pub sum_service_metric : List EnvironmentSummary → String → String → Number
unfolding add_summary_value service_value
sum_service_metric environments service key =
    foldl
      (λ total environment. add_summary_value total (service_value service key environment.summary))
      (int (pos 0)) environments

abbrev pub preferred : List String
preferred = "workflow" ∷ "execution" ∷ "integration" ∷ []

-- The loop over `ranked`.
unfoldable pub add_preferred : Dict ℕ → Dict ℕ → Dict ℕ
add_preferred top [] = top
add_preferred top ((resource_type, count) ∷ ranked) =
    add_preferred
      (if includes preferred resource_type && not (includes (keys top) resource_type)
        then top ++ ((resource_type, count) ∷ [])
        else top)
      ranked

unfoldable pub coverage_entries : Dict ℕ → Dict ℕ
unfolding add_preferred sort
coverage_entries breakdown =
    let ranked = sort (λ left right. sub_ℕ right.1 left.1) breakdown in
    add_preferred (take 8 ranked) ranked

includes-append :
    (xs ys : List String) (k : String) → includes (xs ++ ys) k ≡ (includes xs k || includes ys k)
includes-append [] ys k = refl
includes-append (x ∷ xs) ys k = ground (arith, includes-append xs ys k)

keys-append : (d e : Dict ℕ) → keys (d ++ e) ≡ keys d ++ keys e
keys-append [] e = refl
keys-append (x ∷ d) e = ap (◌∷◌ x.0) (keys-append d e)

grown :
    (b : Bool) (top e : Dict ℕ) (k : String)
    → includes (keys top) k ≡ true
    → includes (keys (if b then top ++ e else top)) k ≡ true
grown true top e k h = rw (keys-append top e, includes-append (keys top) (keys e) k, h)
grown false top e k h = h

add_preferred-keeps :
    (ranked top : Dict ℕ) (k : String)
    → includes (keys top) k ≡ true
    → includes (keys (add_preferred top ranked)) k ≡ true
unfolding add_preferred
add_preferred-keeps [] top k h = h
add_preferred-keeps ((t, c) ∷ ranked) top k h =
    add_preferred-keeps ranked _ k
      (grown (includes preferred t && not (includes (keys top) t)) top ((t, c) ∷ []) k h)

placed : (top : Dict ℕ) (t : String) (c : ℕ) → includes (keys (top ++ ((t, c) ∷ []))) t ≡ true
placed [] t c = rw (eq_refl t)
placed (x ∷ top) t c = ground (arith, placed top t c)

-- The step at a preferred type leaves it in the list.
put :
    (p b : Bool) (top : Dict ℕ) (t : String) (c : ℕ)
    → p ≡ true
    → includes (keys top) t ≡ b
    → includes (keys (if p && not b then top ++ ((t, c) ∷ []) else top)) t ≡ true
put true true top t c p h = h
put true false top t c p h = placed top t c
put false b top t c p h = cc

add_preferred-has :
    (ranked top : Dict ℕ) (k : String)
    → includes preferred k ≡ true
    → includes (keys ranked) k ≡ true
    → includes (keys (add_preferred top ranked)) k ≡ true
unfolding add_preferred
add_preferred-has [] top k p h = cc
add_preferred-has ((t, c) ∷ ranked) top k p h = elim (Bool-cases (t == k)) [
  | inl e ↦
      let same : t ≡ k = (eq_iff t k).0 e in
      add_preferred-keeps ranked _ k (
        subst
          (λ x.
            includes
              (keys (
                if includes preferred t && not (includes (keys top) t)
                then top ++ ((t, c) ∷ [])
                else top))
              x
            ≡ true)
          same
          (put (includes preferred t) (includes (keys top) t) top t c
            (subst (λ x. includes preferred x ≡ true) (sym same) p) refl))
  | inr e ↦ add_preferred-has ranked _ k p (rw e at h)
]

insert_sorted-keys :
    (x : String × ℕ) (xs : Dict ℕ) (k : String)
    → includes (keys (insert_sorted (λ left right. sub_ℕ right.1 left.1) x xs)) k
      ≡ (x.0 == k || includes (keys xs) k)
unfolding insert_sorted
insert_sorted-keys x [] k = refl
insert_sorted-keys x (y ∷ ys) k = ground (arith, insert_sorted-keys x ys k)

sort-keys :
    (xs : Dict ℕ) (k : String)
    → includes (keys (sort (λ left right. sub_ℕ right.1 left.1) xs)) k ≡ includes (keys xs) k
unfolding sort
sort-keys [] k = refl
sort-keys (x ∷ xs) k = insert_sorted-keys x _ k ∙ ap (λ b. x.0 == k || b) (sort-keys xs k)

-- A preferred resource type that the fleet has is shown, however many types have more resources.
pub coverage_entries-preferred :
    (breakdown : Dict ℕ) (k : String)
    → includes preferred k ≡ true
    → includes (keys breakdown) k ≡ true
    → includes (keys (coverage_entries breakdown)) k ≡ true
unfolding coverage_entries
coverage_entries-preferred breakdown k p h =
    let ranked = sort (λ left right. sub_ℕ right.1 left.1) breakdown in
    add_preferred-has ranked (take 8 ranked) k p (sort-keys breakdown k ∙ h)

-- The two copies of the loop's body do the same to a total.
add_summary_value-eq-add_value :
    (total : Number) (v : Value) → add_summary_value total v ≡ add_value total v
unfolding add_summary_value add_value
add_summary_value-eq-add_value total (num n) = refl
add_summary_value-eq-add_value total (str s) = refl
add_summary_value-eq-add_value total _ = refl

module _ (service key : String) where
  -- The value of the dashboard's summary of an environment is that of its snapshot.
  abbrev pub Agrees : MonitoringEnvironment → Type 0
  Agrees e =
      service_value service key e.environment.summary
      ≡ summary_value (get_snapshot e.snapshots service) key

  sum_from-eq :
      (environments : List MonitoringEnvironment) (total : Number)
      → All Agrees environments
      → foldl
          (λ t environment. add_summary_value t (service_value service key environment.summary))
          total
          (map (λ (e : MonitoringEnvironment). e.environment) environments)
        ≡ foldl
            (λ t e. add_value t (summary_value (get_snapshot e.snapshots service) key))
            total
            environments
  sum_from-eq [] total h = refl
  sum_from-eq (e ∷ environments) total (h, hs) =
      ap
        (λ start.
          foldl
            (λ t environment. add_summary_value t (service_value service key environment.summary))
            start (map (λ (x : MonitoringEnvironment). x.environment) environments))
        (ap (add_summary_value total) h
          ∙ add_summary_value-eq-add_value total
              (summary_value (get_snapshot e.snapshots service) key))
      ∙ sum_from-eq environments _ hs

  -- The dashboard and the monitoring page, each by its own loop, show the same sum of a metric, where the summary of every
  -- environment holds the value that its snapshot of the service holds.
  pub sum_service_metric-eq-sum_numeric_metric :
      (environments : List MonitoringEnvironment)
      → All Agrees environments
      → sum_service_metric
          (map (λ (e : MonitoringEnvironment). e.environment) environments)
          service
          key
        ≡ sum_numeric_metric environments service key
  unfolding sum_service_metric sum_numeric_metric
  sum_service_metric-eq-sum_numeric_metric environments h = sum_from-eq environments (int (pos 0)) h
