-- ===== src/Tests/Push.antt =====
-- The theorems on pushed mutations, on the example data.
use openfaith.Common.{true, ◌≡◌, refl, List, [], ◌∷◌, ◌++◌, map, filter, Text, lit, ◌===◌}
use openfaith.SyncEngine.{update}
use openfaith.Relations.Groups.{items_of, names_of, are_distinct}
use openfaith.Mutations.{
  text, Fields, Item, object, no_object, items, CustomMutation, custom, done, kind_of,
  convert_custom_mutation_to_crud_mutation, entity_workflows,
}
use openfaith.Mutations.Laws.{converted, convert_custom_mutation_lem}
use openfaith.Mutations.Groups.{crud_part, custom_part, entity_workflows_lem}

abbrev fields : Text → Fields
fields id = (b'i' ∷ b'd' ∷ [], text id) ∷ (b'n' ∷ [], text (b'J' ∷ [])) ∷ []

abbrev rows : List (Text × Fields)
rows = (b'1' ∷ [], fields (b'1' ∷ [])) ∷ (b'2' ∷ [], fields (b'2' ∷ [])) ∷ []

-- "p|update"
abbrev mutation : List Item → CustomMutation
mutation is = record {
  name = b'p' ∷ b'|' ∷ b'u' ∷ b'p' ∷ b'd' ∷ b'a' ∷ b't' ∷ b'e' ∷ [];
  args = items is ∷ [];
  client_id = [];
  id = 1;
  timestamp = 2;
}

abbrev pub good : CustomMutation
good = mutation (map (λ r. object r.1) rows)

convert_custom_mutation_lem_example :
    convert_custom_mutation_to_crud_mutation good
    ≡ done (map (converted good (b'p' ∷ []) update) rows)
unfolding kind_of ◌===◌ lit
convert_custom_mutation_lem_example =
    convert_custom_mutation_lem good b'p' [] b'u' (b'p' ∷ b'd' ∷ b'a' ∷ b't' ∷ b'e' ∷ []) update
      rows [] refl (refl, tt) (refl, (refl, (refl, (refl, (refl, (refl, tt)))))) refl refl
      (refl, (refl, tt))

abbrev half_bad : CustomMutation
half_bad = mutation (object (fields (b'1' ∷ [])) ∷ no_object ∷ [])

entity_workflows_lem_example :
    (are_distinct (names_of (entity_workflows (custom good ∷ []))) ≡ true)
    × (items_of (b'p' ∷ []) (entity_workflows (custom good ∷ []))
        ≡ filter
            (λ i. i.entity_name === b'p' ∷ [])
            (crud_part (custom good ∷ []) ++ custom_part (custom good ∷ [])))
entity_workflows_lem_example = entity_workflows_lem (custom good ∷ []) (b'p' ∷ [])
