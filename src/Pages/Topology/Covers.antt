-- ===== src/Pages/Topology/Covers.antt =====
-- The drawing of a map whose objects have a rank above that of their children: it ends, and it has
-- a card for each object that can be reached.
use ansible_aam.Prelude.{
  ℕ, zero, suc, ◌+◌, ◌≤◌, ◌<◌, String, ◌≡◌, refl, ◌≢◌, inl, inr, true, ◌||◌, none, some, List, [],
  ◌∷◌, ◌++◌, map, arith, eq_iff, Option-cases, or_else, is_some, All,
}
use ansible_aam.Prelude.Dict.{Dict, includes, lookup}
use ansible_aam.Value.{Value}
use ansible_aam.Pages.Topology.{TreeNode, Card, card_of, draw}
use ansible_aam.Pages.Topology.Built.{children_in}
use ansible_aam.Pages.Topology.Keyed.{IsKeyed}

abbrev pub card_ids : List Card → List String
card_ids cards = map (λ (card : Card). card.id) cards

abbrev pub children_of : Dict TreeNode → String → List String
children_of m id = or_else (children_in (lookup id m)) []

-- The cards have all of some ids, and with an id its children.
pub record Covers (m : Dict TreeNode) (ids : List String) (cards : List Card) : Type 0 where
  pub all : (id : String) → includes ids id ≡ true → includes (card_ids cards) id ≡ true
  pub closed :
      (id child : String)
      → includes (card_ids cards) id ≡ true
      → includes (children_of m id) child ≡ true
      → includes (card_ids cards) child ≡ true

includes-card_ids :
    (xs ys : List Card) (id : String)
    → includes (card_ids (xs ++ ys)) id ≡ includes (card_ids xs) id || includes (card_ids ys) id
includes-card_ids [] ys id = refl
includes-card_ids (x ∷ xs) ys id = ground (arith, includes-card_ids xs ys id)

module _ (json : Value → String) (m : Dict TreeNode) where
  draw-cons :
      (fuel depth : ℕ) (id : String) (ids : List String) (entry : TreeNode)
      (nested rest : List Card)
      → lookup id m ≡ some entry
      → draw json fuel m (depth + 1) entry.children ≡ some nested
      → draw json (suc fuel) m depth ids ≡ some rest
      → draw json (suc fuel) m depth (id ∷ ids)
        ≡ some (card_of json depth entry.node ∷ (nested ++ rest))
  unfolding draw
  draw-cons fuel depth id ids entry nested rest e n r = ground arith

  Covers-cons :
      (depth : ℕ) (id : String) (ids : List String) (entry : TreeNode) (nested rest : List Card)
      → lookup id m ≡ some entry
      → entry.node.id ≡ id
      → Covers m entry.children nested
      → Covers m ids rest
      → Covers m (id ∷ ids) (card_of json depth entry.node ∷ (nested ++ rest))
  unfolding card_of
  Covers-cons depth id ids entry nested rest e k n r = record {
    all = λ j h. ground (arith, eq_iff id j, includes-card_ids nested rest j, r.all j);
    closed = λ j c h q. ground (
      arith,
      eq_iff id j,
      includes-card_ids nested rest j,
      includes-card_ids nested rest c,
      n.all c,
      n.closed j c,
      r.closed j c,
    );
  }

unknown : (id : String) (m : Dict TreeNode) → lookup id m ≡ none → is_some (lookup id m) ≢ true
unknown id m e h = ground arith

keyed_entry :
    (m : Dict TreeNode) (id : String) (entry : TreeNode)
    → IsKeyed m
    → lookup id m ≡ some entry
    → entry.node.id ≡ id
keyed_entry m id entry keyed e = ground (arith, keyed id)

module _ (rank : String → ℕ) where
  -- An object below `fuel` that is in the `Map`.
  abbrev pub IsBelow : ℕ → Dict TreeNode → String → Type 0
  IsBelow fuel m id = (rank id < fuel) × (is_some (lookup id m) ≡ true)

  -- Children have a smaller rank than their parents and are in the `Map`.
  abbrev pub Descends : Dict TreeNode → Type 0
  Descends m =
      (id : String) (entry : TreeNode)
      → lookup id m ≡ some entry
      → All (IsBelow (rank id) m) entry.children

  IsBelow-mono :
      (m : Dict TreeNode) (k n : ℕ) (ids : List String)
      → k ≤ n
      → All (IsBelow k m) ids
      → All (IsBelow n m) ids
  IsBelow-mono m k n [] h below = below
  IsBelow-mono m k n (id ∷ ids) h below =
      ((omega (arith, below.0.0), below.0.1), IsBelow-mono m k n ids h below.1)

  module _ (json : Value → String) (m : Dict TreeNode) (keyed : IsKeyed m)
      (descends : Descends m) where
    pub draw-Covers :
        (fuel depth : ℕ) (ids : List String)
        → All (IsBelow fuel m) ids
        → (cards : List Card) × (draw json fuel m depth ids ≡ some cards) × Covers m ids cards
    unfolding draw
    draw-Covers fuel depth [] below = ([], refl, record { all = λ id h. h; closed = λ id c h q. h })
    draw-Covers zero depth (id ∷ ids) below = absurd (omega (arith, below.0.0))
    draw-Covers (suc fuel) depth (id ∷ ids) below = elim (Option-cases (lookup id m)) [
      | inl e ↦ absurd (unknown id m e below.0.1)
      | inr (entry, e) ↦
          let (nested, n, n_covers) = draw-Covers fuel (depth + 1) entry.children (
            IsBelow-mono m (rank id) fuel entry.children (omega (arith, below.0.0))
              (descends id entry e)) in
          let (rest, r, r_covers) = draw-Covers (suc fuel) depth ids below.1 in
          (
            card_of json depth entry.node ∷ (nested ++ rest),
            draw-cons json m fuel depth id ids entry nested rest e n r,
            Covers-cons json m depth id ids entry nested rest e (keyed_entry m id entry keyed e)
                n_covers r_covers,
          )
    ]
