-- ===== src/Mutations/Groups.antt =====
-- What each entity workflow of a push is given.
use openfaith.Common.{true, ◌≡◌, refl, ap, ◌∙◌, List, [], ◌∷◌, ◌++◌, map, filter, Text, ◌===◌}
use openfaith.Relations.{flat_map}
use openfaith.Relations.Groups.{
  items_of, names_of, are_distinct, items_of-group_by, group_by_distinct,
}
use openfaith.Mutations.{
  Operation, CrudMutation, Mutation, crud, custom, EntityWorkflowItem, Outcome, done, failed,
  crud_of, custom_of, crud_items, first_ops, or_nothing, convert_custom_mutation_to_crud_mutation,
  convert_custom_mutations, all_entity_workflows, entity_workflows,
}

-- The operations of the CRUD mutations, and then what the custom mutations are converted to, where their
-- conversion succeeds: the mutations one after the other.
abbrev pub crud_part : List Mutation → List EntityWorkflowItem
crud_part [] = []
crud_part (crud m ∷ ms) = elim m.args [
  | [] ↦ crud_part ms
  | ops ∷ _ ↦
      map (λ (op : Operation). record { entity_name = op.table_name; mutation = m; op = op }) ops
      ++ crud_part ms
]
crud_part (custom m ∷ ms) = crud_part ms

abbrev pub custom_part : List Mutation → List EntityWorkflowItem
custom_part [] = []
custom_part (crud m ∷ ms) = custom_part ms
custom_part (custom m ∷ ms) = elim (convert_custom_mutation_to_crud_mutation m) [
  | done items ↦ items ++ custom_part ms
  | failed e ↦ custom_part ms
]

add_ops :
    (m : CrudMutation) (ops : List (List Operation)) (rest : List EntityWorkflowItem)
    → map
          (λ (op : Operation). record { entity_name = op.table_name; mutation = m; op = op })
          (first_ops ops)
        ++ rest
      ≡ elim ops [
        | [] ↦ rest
        | os ∷ _ ↦
            map
              (λ (op : Operation). record { entity_name = op.table_name; mutation = m; op = op })
              os
            ++ rest
      ]
add_ops m [] rest = refl
add_ops m (os ∷ _) rest = refl

add_converted :
    (converted : Outcome (List EntityWorkflowItem)) (rest : List EntityWorkflowItem)
    → or_nothing converted ++ rest ≡ elim converted [ done items ↦ items ++ rest | failed e ↦ rest ]
add_converted (done items) rest = refl
add_converted (failed e) rest = refl

crud_part-eq : (ms : List Mutation) → flat_map crud_items (flat_map crud_of ms) ≡ crud_part ms
crud_part-eq [] = refl
crud_part-eq (crud m ∷ ms) =
    ap (λ r. crud_items m ++ r) (crud_part-eq ms) ∙ add_ops m m.args (crud_part ms)
crud_part-eq (custom m ∷ ms) = crud_part-eq ms

custom_part-eq :
    (ms : List Mutation) → convert_custom_mutations (flat_map custom_of ms) ≡ custom_part ms
unfolding convert_custom_mutations
custom_part-eq [] = refl
custom_part-eq (crud m ∷ ms) = custom_part-eq ms
custom_part-eq (custom m ∷ ms) =
    ap (λ r. or_nothing (convert_custom_mutation_to_crud_mutation m) ++ r) (custom_part-eq ms)
    ∙ add_converted (convert_custom_mutation_to_crud_mutation m) (custom_part ms)

-- A push runs at most one workflow for each entity name, and the one of a name has all items of that
-- name: the operations of the CRUD mutations, in their order, and after them the items of the custom
-- mutations, in their order; a custom mutation that cannot be converted has none.
pub entity_workflows_lem :
    (ms : List Mutation) (name : Text)
    → (are_distinct (names_of (entity_workflows ms)) ≡ true)
      × (items_of name (entity_workflows ms)
          ≡ filter (λ i. i.entity_name === name) (crud_part ms ++ custom_part ms))
unfolding entity_workflows all_entity_workflows
entity_workflows_lem ms name = (
  group_by_distinct (λ (i : EntityWorkflowItem). i.entity_name) (all_entity_workflows ms),
  items_of-group_by (λ (i : EntityWorkflowItem). i.entity_name) name (all_entity_workflows ms)
      ∙ ap (filter (λ i. i.entity_name === name)) (
          ap (λ r. r ++ convert_custom_mutations (flat_map custom_of ms)) (crud_part-eq ms)
          ∙ ap (λ r. crud_part ms ++ r) (custom_part-eq ms)),
)
