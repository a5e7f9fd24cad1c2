-- ===== src/Mutators.antt =====
-- packages/zero/mutators.ts, with validateMutationData of packages/schema/shared/introspection.ts:
-- the writes that a user asks for, on the server or on the client, and the check of who writes.
pub mod Enrichment
pub mod Laws
use openfaith.Common.{
  Bool, true, false, not, ◌&&◌, ◌||◌, List, [], ◌∷◌, ◌++◌, map, Option, none, some, if◌then◌else◌,
  find, Text, lit, ◌===◌, ◌⊎◌, inl, inr,
}
use openfaith.SyncEngine.{OpKind, insert, update, upsert, delete}
use openfaith.Mutations.{Fields, Value, text, other}
use openfaith.Strings.{pluralize}

-- The part of `AuthData` that the mutators read. `activeOrganizationId` may be null.
pub record AuthData : Type 0 where
  pub sub : Text
  pub active_organization_id : Option Text
  pub role : Text

-- How a mutation ends.
pub data Answer : Type 0 where
  done : Answer
  not_authenticated no_active_organization : Answer
  no_mutator : Answer
  parse_error : Answer
  no_matching_auth : Fields → Answer
  mutator_error : OpKind → Fields → Answer

-- A call of `tx.mutate[table_name][operation](item)`.
pub record Call : Type 0 where
  pub table_name : Text
  pub operation : OpKind
  pub item : Fields

-- An entity, with what `Schema.decodeUnknown` makes of a list of items for its schema, for the schema
-- of an update and for that of a deletion. `none` is a ParseError.
pub record EntityUiConfig : Type 0 where
  pub tag : Text
  pub decode : List Fields → Option (List Fields)
  pub decode_update : List Fields → Option (List Fields)
  pub decode_delete : List Fields → Option (List Fields)

-- `validateMutationData`
unfoldable pub validate_mutation_data :
    (items : List Fields) (operation : OpKind) (schema : EntityUiConfig) → Option (List Fields)
validate_mutation_data items insert s = s.decode items
validate_mutation_data items upsert s = s.decode items
validate_mutation_data items update s = s.decode_update items
validate_mutation_data items delete s = s.decode_delete items

abbrev is_text : Text → Option (Text × Value) → Bool
is_text t none = false
is_text t (some (_, text s)) = s === t
is_text t (some (_, other s)) = false

-- `item[name] === t`
unfoldable pub is_field : Text → Text → Fields → Bool
is_field name t item = is_text t (find (λ (f : Text × Value). f.0 === name) item)

-- The item does not have the user and the organisation of the request.
unfoldable pub is_foreign : (org_id user_id : Text) → Fields → Bool
is_foreign org_id user_id item =
    not (is_field (lit "updatedBy") user_id item) || not (is_field (lit "orgId") org_id item)

-- `localOperation`
unfoldable pub local_operation : OpKind → OpKind
local_operation delete = update
local_operation insert = insert
local_operation update = update
local_operation upsert = upsert

-- The transaction refuses a call, which then rejects.
module _ (refuses : Call → Bool) where
  -- How the calls end together: with one that is refused, for which the first in the list stands.
  unfoldable pub all_performed : OpKind → List Call → Answer
  all_performed operation [] = done
  all_performed operation (c ∷ calls) =
      let rest = all_performed operation calls in
      if refuses c then mutator_error operation c.item else rest

  -- `effectMutator` after the validation. The calls all start, whatever comes of the others.
  unfoldable pub mutate_validated :
      (table_name : Text) (operation : OpKind) (org_id user_id role : Text)
      → List Fields
      → Answer × List Call
  mutate_validated table_name operation org_id user_id role validated =
      let calls =
        map
          (λ i. record { table_name = table_name; operation = local_operation operation; item = i })
          validated in
      if role === lit "admin"
      then (all_performed operation calls, calls)
      else elim (find (is_foreign org_id user_id) validated) [
        | some item ↦ (no_matching_auth item, [])
        | none ↦ (all_performed operation calls, calls)
      ]

  abbrev pub mutate_decoded :
      (table_name : Text) (operation : OpKind) (org_id user_id role : Text)
      → Option (List Fields)
      → Answer × List Call
  mutate_decoded table_name operation org_id user_id role none = (parse_error, [])
  mutate_decoded table_name operation org_id user_id role (some validated) =
      mutate_validated table_name operation org_id user_id role validated

  -- `effectMutator`
  unfoldable pub effect_mutator :
      (table_name : Text) (entity : EntityUiConfig) (operation : OpKind)
      (org_id user_id role : Text)
      → List Fields
      → Answer × List Call
  effect_mutator table_name entity operation org_id user_id role input =
      mutate_decoded table_name operation org_id user_id role
        (validate_mutation_data input operation entity)

abbrev with_organization : AuthData → Option Text → Answer ⊎ (Text × Text × Text)
with_organization auth none = inl no_active_organization
with_organization auth (some []) = inl no_active_organization
with_organization auth (some (c ∷ org)) = inr (c ∷ org, auth.role, auth.sub)

-- `validateAuth`: the answer that it throws, or the organisation, the role and the user. An empty
-- organisation is falsy.
unfoldable pub validate_auth : Option AuthData → Answer ⊎ (Text × Text × Text)
validate_auth none = inl not_authenticated
validate_auth (some auth) = with_organization auth auth.active_organization_id

-- The mutators of `createMutators` by their table names. A name that is assigned again has the mutators
-- of the last entity. `none` when `pluralize` throws.
unfoldable pub create_mutators :
    (discovered : List EntityUiConfig)
    → List (Text × EntityUiConfig)
    → Option (List (Text × EntityUiConfig))
create_mutators [] mutators = some mutators
create_mutators (entity ∷ entities) mutators = elim (pluralize entity.tag) [
  | none ↦ none
  | some table_name ↦ create_mutators entities ((table_name, entity) ∷ mutators)
]

module _ (refuses : Call → Bool) (auth_data : Option AuthData) (operation : OpKind) where
  abbrev pub run_authorized :
      (table_name : Text) (entity : EntityUiConfig)
      → List Fields
      → Answer ⊎ (Text × Text × Text)
      → Answer × List Call
  run_authorized table_name entity input (inl answer) = (answer, [])
  run_authorized table_name entity input (inr (org_id, role, user_id)) =
      effect_mutator refuses table_name entity operation org_id user_id role input

  abbrev pub run_mutator : List Fields → Option (Text × EntityUiConfig) → Answer × List Call
  run_mutator input none = (no_mutator, [])
  run_mutator input (some (table_name, entity)) =
      run_authorized table_name entity input (validate_auth auth_data)

  -- `mutators[tableName][operation](tx, input)`
  unfoldable pub mutate :
      (mutators : List (Text × EntityUiConfig)) (table_name : Text)
      → List Fields
      → Answer × List Call
  mutate mutators table_name input =
      run_mutator input (find (λ (m : Text × EntityUiConfig). m.0 === table_name) mutators)
