-- ===== src/Relations.antt =====
-- Relationship types: packages/schema/shared/relationshipUtils.ts. Grouping into a JavaScript object
-- and a hash set are lists in the order of first insertion; nothing downstream reads that order.
pub mod Keys
pub mod Expansion
pub mod Groups
pub mod Grouping
use openfaith.Common.{
  ℕ, Bool, true, false, not, ◌||◌, List, [], ◌∷◌, ◌++◌, map, if◌then◌else◌, any, filter, ◌==◌, Text,
  ◌===◌,
}

pub record RelationshipTypes : Type 0 where
  pub source_entity_type_tag : Text
  pub target_entity_type_tags : List Text

abbrev pub flat_map {ℓ κ} : {A : Type ℓ} {B : Type κ} → (A → List B) → List A → List B
flat_map f [] = []
flat_map f (x ∷ xs) = f x ++ flat_map f xs

abbrev pub contains : Text → List Text → Bool
contains t ts = any (λ x. x === t) ts

abbrev pub remove : Text → List Text → List Text
remove t ts = filter (λ x. not (x === t)) ts

-- `Array.dedupe`, and `HashSet.fromIterable` up to the order: the first of equal texts is kept.
unfoldable pub dedupe : List Text → List Text
dedupe [] = []
dedupe (t ∷ ts) = t ∷ remove t (dedupe ts)

-- `${source}|${target}`
unfoldable pub pair_key : Text → Text → Text
pair_key source target = source ++ b'|' ∷ target

-- `key.split('|')`: the first part, and the second (empty if there is none; a key always has one).
unfoldable pub first_part : Text → Text
first_part [] = []
first_part (c ∷ s) = let rest = first_part s in if c == b'|' then [] else c ∷ rest

unfoldable pub after_bar : Text → Text
after_bar [] = []
after_bar (c ∷ s) = let rest = after_bar s in if c == b'|' then s else rest

abbrev pub pair_of_key : Text → Text × Text
pair_of_key key = (first_part key, first_part (after_bar key))

-- The pairs of one target: one for a type linked to itself, else both directions.
abbrev pub pairs_of : Text → Text → List (Text × Text)
pairs_of source target =
    if source === target then (source, target) ∷ [] else (source, target) ∷ (target, source) ∷ []

abbrev pub raw_pairs : List RelationshipTypes → List (Text × Text)
raw_pairs rels =
    flat_map (λ r. flat_map (pairs_of r.source_entity_type_tag) r.target_entity_type_tags) rels

-- `expandBidirectionalPairs`
unfoldable pub expand_bidirectional_pairs : List RelationshipTypes → List (Text × Text)
expand_bidirectional_pairs rels =
    map pair_of_key (dedupe (map (λ p. pair_key p.0 p.1) (raw_pairs rels)))

-- `Array.groupBy` with the entries of the object as a list
module _ {ℓ} {A : Type ℓ} where
  unfoldable pub insert_group : Text → A → List (Text × List A) → List (Text × List A)
  insert_group k a [] = (k, a ∷ []) ∷ []
  insert_group k a ((j, as') ∷ groups) =
      if j === k then (j, as' ++ a ∷ []) ∷ groups else (j, as') ∷ insert_group k a groups

  group_from : (A → Text) → List (Text × List A) → List A → List (Text × List A)
  group_from key groups [] = groups
  group_from key groups (a ∷ as') = group_from key (insert_group (key a) a groups) as'

  unfoldable pub group_by : (A → Text) → List A → List (Text × List A)
  unfolding group_from insert_group
  group_by key items = group_from key [] items

-- `groupPairsBySource`
unfoldable pub group_pairs_by_source : List (Text × Text) → List (Text × List Text)
group_pairs_by_source pairs =
    map (λ g. (g.0, dedupe (map (λ (p : Text × Text). p.1) g.1))) (group_by (λ p. p.0) pairs)

-- `compressPairs`: each pair once, in the order of its first occurrence.
compress_from : List Text → List (Text × Text) → List (Text × Text) → List (Text × Text)
compress_from seen result [] = result
compress_from seen result ((source, target) ∷ pairs) =
    let key = pair_key source target in
    if contains key seen
    then compress_from seen result pairs
    else compress_from (key ∷ seen) (result ++ (source, target) ∷ []) pairs

unfoldable pub compress_pairs : List (Text × Text) → List (Text × Text)
unfolding compress_from
compress_pairs pairs = compress_from [] [] pairs

-- `compressRelationshipInputs`
unfoldable pub compress_relationship_inputs : List RelationshipTypes → List RelationshipTypes
compress_relationship_inputs inputs =
    map
      (λ g. record {
        source_entity_type_tag = g.0;
        target_entity_type_tags =
            dedupe (flat_map (λ (r : RelationshipTypes). r.target_entity_type_tags) g.1);
      })
      (group_by (λ r. r.source_entity_type_tag) inputs)
