-- ===== src/Capabilities/Extras.antt =====
-- The extra capabilities: every key that is not a known one survives, and no known one gets in.
use ansible_aam.Prelude.{
  String, ◌≡◌, refl, ap, ◌∙◌, inl, inr, Bool, true, false, not, ◌&&◌, Option, none, some, [], ◌∷◌,
  arith, ◌==◌, eq_iff, if◌then◌else◌, Bool-cases, is_some,
}
use ansible_aam.Prelude.Dict.{Dict, includes, lookup, insert, remove, lookup-insert, lookup-remove}
use ansible_aam.Value.{Value}
use ansible_aam.Capabilities.{
  CapabilityProfile, known_capability_keys, collect_extras, parse_capability_profile,
  build_capabilities,
}
use ansible_aam.Capabilities.Roundtrip.{lookup-build_capabilities}
use ansible_aam.Capabilities.Fields.{
  Assignments, assign, assign_all, assignments, build_capabilities-assign_all, Distinct,
  assigned_or, is_some-lookup-assignments,
}

-- The newer value, if there is one.
abbrev newer : Option Value → Option Value → Option Value
newer none old = old
newer (some v) old = some v

collect_one :
    (j k : String) (v : Value) (acc : Dict Value)
    → lookup j (if not (includes known_capability_keys k) then insert k v acc else acc)
      ≡ (if not (includes known_capability_keys k) && k == j then some v else lookup j acc)
collect_one j k v acc = ground (arith, lookup-insert k j v acc)

-- One round of the loop against the entries that are left.
one_round :
    (known_k known_j same : Bool) (v : Value) (rest acc : Option Value)
    → (same ≡ true → known_k ≡ known_j)
    → (same ≡ true → rest ≡ none)
    → (let acc' = (if not known_k && same then some v else acc) in
        if known_j then acc' else newer rest acc')
      ≡ (if known_j then acc else newer (if same then some v else rest) acc)
one_round true known_j false v rest acc h a = refl
one_round false known_j false v rest acc h a = refl
one_round known_k known_j true v rest acc h a = rw (← h refl, a refl) (last known_k)
  where
    last :
        (b : Bool)
        → (let acc' = (if not b && true then some v else acc) in
            if b then acc' else newer none acc')
          ≡ (if b then acc else some v)
    last true = refl
    last false = refl

-- An object has no key twice, so the loop copies each entry once.
lookup-collect_extras :
    (j : String) (source acc : Dict Value)
    → Distinct source
    → lookup j (collect_extras acc source) ≡ (
        if includes known_capability_keys j
        then lookup j acc
        else newer (lookup j source) (lookup j acc))
unfolding lookup collect_extras
lookup-collect_extras j [] acc h = ground arith
lookup-collect_extras j ((k, v) ∷ source) acc (h, hs) =
    lookup-collect_extras j source _ hs
    ∙ ap (λ o. if includes known_capability_keys j then o else newer (lookup j source) o)
        (collect_one j k v acc)
    ∙ one_round (includes known_capability_keys k) (includes known_capability_keys j) (k == j) v
        (lookup j source) (lookup j acc)
        (λ e. ap (includes known_capability_keys) ((eq_iff k j).0 e))
        (λ e. rw ((eq_iff k j).0 e) at h)

lookup-insert_other :
    (k j : String) (v : Value) (d : Dict Value)
    → (k == j) ≡ false
    → lookup j d ≡ none
    → lookup j (insert k v d) ≡ none
lookup-insert_other k j v d h e = rw (lookup-insert k j v d, h) e

insert-Distinct : (k : String) (v : Value) (d : Dict Value) → Distinct d → Distinct (insert k v d)
unfolding insert lookup
insert-Distinct k v [] h = (refl, tt)
insert-Distinct k v ((i, w) ∷ d) (h, hs) = elim (Bool-cases (i == k)) [
  | inl e ↦ rw e (rw ((eq_iff i k).0 e) at h, hs)
  | inr e ↦ rw e (
    lookup-insert_other k i v d (ground (arith, eq_iff i k, eq_iff k i)) h,
    insert-Distinct k v d hs,
  )
]

remove-Distinct : (k : String) (d : Dict Value) → Distinct d → Distinct (remove k d)
unfolding remove lookup
remove-Distinct k [] h = tt
remove-Distinct k ((i, w) ∷ d) (h, hs) = elim (Bool-cases (i == k)) [
  | inl e ↦ rw e (remove-Distinct k d hs)
  | inr e ↦ rw e (ground (arith, lookup-remove k i d, h), remove-Distinct k d hs)
]

assign_all-Distinct :
    (list : Assignments) (d : Dict Value) → Distinct d → Distinct (assign_all list d)
unfolding assign_all assign
assign_all-Distinct [] d h = h
assign_all-Distinct ((k, none) ∷ list) d h = assign_all-Distinct list _ (remove-Distinct k d h)
assign_all-Distinct ((k, some v) ∷ list) d h = assign_all-Distinct list _ (insert-Distinct k v d h)

build_capabilities-Distinct :
    (profile : CapabilityProfile) (extra : Dict Value)
    → Distinct extra
    → Distinct (build_capabilities profile extra)
build_capabilities-Distinct profile extra h =
    rw (build_capabilities-assign_all profile extra)
      (assign_all-Distinct (assignments profile) extra h)

pub collect_extras-Distinct :
    (source acc : Dict Value) → Distinct acc → Distinct (collect_extras acc source)
unfolding collect_extras
collect_extras-Distinct [] acc h = h
collect_extras-Distinct ((k, v) ∷ source) acc h =
    elim (Bool-cases (includes known_capability_keys k)) [
      | inl e ↦ rw e (collect_extras-Distinct source acc h)
      | inr e ↦ rw e (collect_extras-Distinct source _ (insert-Distinct k v acc h))
    ]

drop_known :
    (known : Bool) (o : Option (Option Value)) (old : Option Value)
    → is_some o ≡ known
    → (if known then none else newer (assigned_or o old) none) ≡ (if known then none else old)
drop_known true o old h = refl
drop_known false (some value) old h = cc
drop_known false none none h = refl
drop_known false none (some v) h = refl

-- Where each key of the given extra capabilities stands once: after a build, those that are read
-- back are the given ones but the known keys.
pub extra-build_capabilities :
    (profile : CapabilityProfile) (extra : Dict Value) (j : String)
    → Distinct extra
    → lookup j
        (parse_capability_profile (some (build_capabilities profile extra))).extra_capabilities
      ≡ (if includes known_capability_keys j then none else lookup j extra)
unfolding parse_capability_profile lookup
extra-build_capabilities profile extra j h =
    lookup-collect_extras j (build_capabilities profile extra) []
      (build_capabilities-Distinct profile extra h)
    ∙ ap (λ o. if includes known_capability_keys j then none else newer o none)
        (lookup-build_capabilities j profile extra)
    ∙ drop_known _ _ _ (is_some-lookup-assignments j profile)
