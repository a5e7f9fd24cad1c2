-- ===== src/Mutators/Enrichment.antt =====
-- enrichMutationData of packages/schema/shared/introspection.ts: what the user interface adds to a write
-- before it sends it.
pub mod Laws
use openfaith.Common.{
  ℕ, suc, ◌≡◌, refl, arith, Bool, true, false, not, ◌&&◌, ◌||◌, List, [], ◌∷◌, ◌++◌, map, Option,
  none, some, Text, lit, ◌===◌, ===-refl, All, find, find-cases, inl, inr, if◌then◌else◌, ap, sym,
  ◌∙◌,
}
use openfaith.SyncEngine.{OpKind, insert, update, upsert, delete}
use openfaith.Mutations.{Fields, Value, text, other}
use openfaith.Mutators.{
  Answer, Call, EntityUiConfig, validate_mutation_data, is_field, is_text, is_foreign,
  local_operation, all_performed, mutate_validated, mutate_decoded, effect_mutator,
}

-- The fields of an object: of two with one name, the first counts. `spread new old` is
-- `{ ...old, ...new }`.
abbrev pub spread : (new old : Fields) → Fields
spread new old = new ++ old

-- The i-th id that `getEntityId` makes, the time of the mutation, and who mutates what.
module _ (new_id : ℕ → Text) (mutated_at org_id user_id entity_type : Text) where
  -- "Base data only for insert/upsert operations"
  unfoldable pub base_data : ℕ → Fields
  base_data i =
      (lit "_tag", text entity_type)
      ∷ (lit "createdAt", text mutated_at)
      ∷ (lit "createdBy", text user_id)
      ∷ (lit "customFields", other (lit "[]"))
      ∷ (lit "externalIds", other (lit "[]"))
      ∷ (lit "id", text (new_id i))
      ∷ (lit "orgId", text org_id)
      ∷ (lit "status", text (lit "active"))
      ∷ (lit "tags", other (lit "[]"))
      ∷ []

  unfoldable pub updated_data : Fields
  updated_data = (lit "updatedAt", text mutated_at) ∷ (lit "updatedBy", text user_id) ∷ []

  -- The object that is made of an item
  unfoldable pub enriched_item : OpKind → ℕ → Fields → Fields
  enriched_item insert i item = spread updated_data (spread item (base_data i))
  enriched_item upsert i item = spread updated_data (spread item (base_data i))
  enriched_item update i item = spread ((lit "orgId", text org_id) ∷ updated_data) item
  enriched_item delete i item =
      spread
        ((lit "deletedAt", text mutated_at)
          ∷ (lit "deletedBy", text user_id)
          ∷ (lit "orgId", text org_id)
          ∷ updated_data)
        item

  unfoldable pub enriched_items : OpKind → ℕ → List Fields → List Fields
  enriched_items operation i [] = []
  enriched_items operation i (item ∷ items) =
      enriched_item operation i item ∷ enriched_items operation (suc i) items

  -- `enrichMutationData`, which decodes with the same schemas as `validateMutationData`.
  unfoldable pub enrich_mutation_data :
      (operation : OpKind) (schema : EntityUiConfig) → List Fields → Option (List Fields)
  enrich_mutation_data operation schema items =
      validate_mutation_data (enriched_items operation 0 items) operation schema
