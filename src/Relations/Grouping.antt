-- ===== src/Relations/Grouping.antt =====
-- Grouping pairs by their source, and merging inputs of the same source, loses and adds nothing.
use openfaith.Common.{
  true, ◌≡◌, refl, sym, ap, ◌∙◌, List, [], ◌∷◌, map, arith, filter, Bool-cases, inl, inr, Text,
  ◌===◌,
}
use openfaith.Relations.{contains, dedupe, group_by, group_pairs_by_source}
use openfaith.Relations.Keys.{contains-dedupe}
use openfaith.Relations.Expansion.{has_pair}
use openfaith.Relations.Groups.{
  items_of, items_of-group_by, names_of, are_distinct, group_by_distinct,
}

items_of-map {ℓ κ} :
    {A : Type ℓ} {B : Type κ} (f : List A → List B) (n : Text) (groups : List (Text × List A))
    → f [] ≡ []
    → items_of n (map (λ (g : Text × List A). (g.0, f g.1)) groups) ≡ f (items_of n groups)
items_of-map f n [] h = sym h
items_of-map f n (g ∷ groups) h = elim (Bool-cases (g.0 === n)) [
  | inl e ↦ rw e refl
  | inr e ↦ rw e (items_of-map f n groups h)
]

names_of-map {ℓ κ} :
    {A : Type ℓ} {B : Type κ} (f : List A → List B) (groups : List (Text × List A))
    → names_of (map (λ (g : Text × List A). (g.0, f g.1)) groups) ≡ names_of groups
names_of-map f [] = refl
names_of-map f (g ∷ groups) = ap (λ ns. g.0 ∷ ns) (names_of-map f groups)

contains-targets :
    (s t : Text) (pairs : List (Text × Text))
    → contains t (map (λ (p : Text × Text). p.1) (filter (λ p. p.0 === s) pairs))
      ≡ has_pair s t pairs
contains-targets s t [] = refl
contains-targets s t (p ∷ pairs) = ground (arith, contains-targets s t pairs)

abbrev targets : List (Text × Text) → List Text
targets ps = dedupe (map (λ (p : Text × Text). p.1) ps)

-- The groups of the pairs have different sources, and a target is in the group of a source exactly
-- when the pair is one of the pairs.
pub group_pairs_by_source_lem :
    (pairs : List (Text × Text)) (s t : Text)
    → (are_distinct (names_of (group_pairs_by_source pairs)) ≡ true)
      × (contains t (items_of s (group_pairs_by_source pairs)) ≡ has_pair s t pairs)
unfolding group_pairs_by_source dedupe
group_pairs_by_source_lem pairs s t =
    let groups = group_by (λ (p : Text × Text). p.0) pairs in
    (
      ap are_distinct (names_of-map targets groups)
          ∙ group_by_distinct (λ (p : Text × Text). p.0) pairs,
      ap (contains t) (
            items_of-map targets s groups refl
            ∙ ap targets (items_of-group_by (λ (p : Text × Text). p.0) s pairs))
          ∙ contains-dedupe t (map (λ (p : Text × Text). p.1) (filter (λ p. p.0 === s) pairs))
          ∙ contains-targets s t pairs,
    )
