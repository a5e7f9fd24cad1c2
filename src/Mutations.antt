-- ===== src/Mutations.antt =====
-- backend/workers/helpers/convertCustomMutation.ts, and how
-- backend/workers/workflows/externalPushWorkflow.ts hands the operations of a push to the workflows
-- of the entities.
pub mod Names
pub mod Laws
pub mod Groups
use openfaith.Common.{
  ℕ, Bool, true, false, ◌||◌, List, [], ◌∷◌, ◌++◌, map, Option, none, some, if◌then◌else◌, ◌==◌,
  find, Text, lit, ◌===◌,
}
use openfaith.Relations.{flat_map, group_by}
use openfaith.SyncEngine.{OpKind, insert, update, upsert, delete}

-- The value of a field: a string, or the JSON text of anything else.
pub data Value : Type 0 where
  text : Text → Value
  other : Text → Value

abbrev pub Fields : Type 0
Fields = List (Text × Value)

-- An item of a custom mutation: an object with its own fields (an array is one without names), or
-- what is no object.
pub data Item : Type 0 where
  object : Fields → Item
  no_object : Item

-- An argument of a custom mutation: an array of items, or what is no array.
pub data Argument : Type 0 where
  items : List Item → Argument
  no_array : Argument

-- `CustomMutation`
pub record CustomMutation : Type 0 where
  pub name : Text
  pub args : List Argument
  pub client_id : Text
  pub id : ℕ
  pub timestamp : ℕ

-- `CRUDOp` of source 'internal'
pub record Operation : Type 0 where
  pub op : OpKind
  pub table_name : Text
  pub primary_key : Fields
  pub value : Fields

-- `CRUDMutation`: `args` holds the lists of operations.
pub record CrudMutation : Type 0 where
  pub args : List (List Operation)
  pub client_id : Text
  pub id : ℕ
  pub name : Text
  pub timestamp : ℕ

pub record EntityWorkflowItem : Type 0 where
  pub entity_name : Text
  pub mutation : CrudMutation
  pub op : Operation

pub data MutationError : Type 0 where
  not_two_parts empty_part no_argument argument_no_array item_no_object item_no_id :
      Text → MutationError
  unsupported_operation : (mutation_name operation : Text) → MutationError

pub data Outcome {ℓ} (A : Type ℓ) : Type ℓ where
  done : A → Outcome A
  failed : MutationError → Outcome A

infixl 5 ◌>>=◌
abbrev pub ◌>>=◌ {ℓ κ} : {A : Type ℓ} {B : Type κ} → Outcome A → (A → Outcome B) → Outcome B
done a >>= k = k a
failed e >>= k = failed e

abbrev pub extend : ℕ → List Text → List Text
extend c [] = (c ∷ []) ∷ []
extend c (part ∷ parts) = (c ∷ part) ∷ parts

-- `name.split('|')`
unfoldable pub split_bar : Text → List Text
split_bar [] = [] ∷ []
split_bar (c ∷ s) = let rest = split_bar s in if c == b'|' then [] ∷ rest else extend c rest

-- The cases of the switch in `createCrudOperation`.
unfoldable pub kind_of : Text → Option OpKind
kind_of operation =
    if operation === lit "update"
    then some update
    else if operation === lit "create" || operation === lit "insert"
    then some insert
    else if operation === lit "delete"
    then some delete
    else if operation === lit "upsert"
    then some upsert
    else none

-- For a delete, the value is the primary key.
abbrev pub value_for : OpKind → Fields → Fields → Fields
value_for delete primary_key data_record = primary_key
value_for _ primary_key data_record = data_record

operation_of :
    Option OpKind → (operation table_name : Text) → Fields → Fields → Text → Outcome Operation
operation_of none operation table_name primary_key data_record mutation_name =
    failed (unsupported_operation mutation_name operation)
operation_of (some k) operation table_name primary_key data_record mutation_name = done (record {
  op = k;
  table_name = table_name;
  primary_key = primary_key;
  value = value_for k primary_key data_record;
})

-- `createCrudOperation`
unfoldable pub create_crud_operation :
    (operation table_name : Text) → Fields → Fields → Text → Outcome Operation
unfolding operation_of
create_crud_operation operation = operation_of (kind_of operation) operation

-- A string under "id".
abbrev pub id_of : Fields → Option Text
id_of fields = elim (find (λ (f : Text × Value). f.0 === lit "id") fields) [
  | none ↦ none
  | some f ↦ elim f.1 [ text s ↦ some s | other s ↦ none ]
]

abbrev pub primary_key_of : Text → Fields
primary_key_of id = (lit "id", text id) ∷ []

-- The CRUD mutation around one operation, and the item that goes with it.
unfoldable pub workflow_item : CustomMutation → Text → Operation → EntityWorkflowItem
workflow_item m entity_name op = record {
  entity_name = entity_name;
  mutation = record {
    args = (op ∷ []) ∷ [];
    client_id = m.client_id;
    id = m.id;
    name = lit "_zero_crud";
    timestamp = m.timestamp;
  };
  op = op;
}

convert_fields :
    CustomMutation
    → (entity_name operation : Text) → Fields
    → Option Text
    → Outcome EntityWorkflowItem
convert_fields m entity_name operation fields none = failed (item_no_id m.name)
convert_fields m entity_name operation fields (some id) = do
  op ← create_crud_operation operation entity_name (primary_key_of id) fields m.name
  done (workflow_item m entity_name op)

convert_item : CustomMutation → (entity_name operation : Text) → Item → Outcome EntityWorkflowItem
convert_item m entity_name operation no_object = failed (item_no_object m.name)
convert_item m entity_name operation (object fields) =
    convert_fields m entity_name operation fields (id_of fields)

-- `Effect.forEach` stops at the first failure.
convert_items :
    CustomMutation → (entity_name operation : Text) → List Item → Outcome (List EntityWorkflowItem)
convert_items m entity_name operation [] = done []
convert_items m entity_name operation (i ∷ is) = do
  first ← convert_item m entity_name operation i
  rest ← convert_items m entity_name operation is
  done (first ∷ rest)

convert_args :
    CustomMutation
    → (entity_name operation : Text) → List Argument
    → Outcome (List EntityWorkflowItem)
convert_args m entity_name operation [] = failed (no_argument m.name)
convert_args m entity_name operation (no_array ∷ _) = failed (argument_no_array m.name)
convert_args m entity_name operation (items is ∷ _) = convert_items m entity_name operation is

convert_parts : CustomMutation → List Text → Outcome (List EntityWorkflowItem)
convert_parts m (entity_name ∷ operation ∷ []) =
    if entity_name === [] || operation === []
    then failed (empty_part m.name)
    else convert_args m entity_name operation m.args
convert_parts m _ = failed (not_two_parts m.name)

-- `convertCustomMutationToCrudMutation`
unfoldable pub convert_custom_mutation_to_crud_mutation :
    CustomMutation → Outcome (List EntityWorkflowItem)
unfolding convert_parts convert_args convert_items convert_item convert_fields
convert_custom_mutation_to_crud_mutation m = convert_parts m (split_bar m.name)

abbrev pub or_nothing : Outcome (List EntityWorkflowItem) → List EntityWorkflowItem
or_nothing (done is) = is
or_nothing (failed e) = []

-- `convertCustomMutations`
unfoldable pub convert_custom_mutations : List CustomMutation → List EntityWorkflowItem
convert_custom_mutations ms =
    flat_map (λ m. or_nothing (convert_custom_mutation_to_crud_mutation m)) ms

pub data Mutation : Type 0 where
  crud : CrudMutation → Mutation
  custom : CustomMutation → Mutation

abbrev crud_of : Mutation → List CrudMutation
crud_of (crud m) = m ∷ []
crud_of (custom m) = []

abbrev custom_of : Mutation → List CustomMutation
custom_of (crud m) = []
custom_of (custom m) = m ∷ []

abbrev first_ops : List (List Operation) → List Operation
first_ops [] = []
first_ops (ops ∷ _) = ops

abbrev pub crud_items : CrudMutation → List EntityWorkflowItem
crud_items m =
    map (λ (op : Operation). record { entity_name = op.table_name; mutation = m; op = op })
      (first_ops m.args)

-- All items of a push: those of its CRUD mutations, then those of its custom mutations.
unfoldable pub all_entity_workflows : List Mutation → List EntityWorkflowItem
all_entity_workflows ms =
    flat_map crud_items (flat_map crud_of ms) ++ convert_custom_mutations (flat_map custom_of ms)

-- The entity workflows that `ExternalPushWorkflow` executes, each with its items.
unfoldable pub entity_workflows : List Mutation → List (Text × List EntityWorkflowItem)
entity_workflows ms = group_by (λ (i : EntityWorkflowItem). i.entity_name) (all_entity_workflows ms)
