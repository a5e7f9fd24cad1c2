-- ===== src/Entities.antt =====
-- `processEntities` of backend/server/live/internalManagerLive.ts.
pub mod Laws
pub mod Links
use openfaith.Common.{
  ℕ, Bool, true, false, not, List, [], ◌∷◌, ◌++◌, map, Option, none, some, filter, length, Text,
  lit, ◌===◌,
}
use openfaith.Sql.{upsert}
use openfaith.Store.{
  CustomField, Entity, Db, Error, entity_processing, Exit, ok, fail, Exec, ◌>>=◌, ◌>>◌, pure,
  Runtime,
}
use openfaith.Store.Keys.{entity_key, same_entity_key}
use openfaith.Relations.{group_by}
use openfaith.Deletion.{table_in}

-- `elem->>'source' = 'pco'`; of a missing source it is not true, and `IS DISTINCT FROM` is.
unfoldable pub is_from_pco : CustomField → Bool
is_from_pco f = elim f.source [ none ↦ false | some s ↦ s === lit "pco" ]

-- The SET expression of `customFields`.
unfoldable pub merge_custom_fields : List CustomField → List CustomField → List CustomField
merge_custom_fields old new = filter (λ f. not (is_from_pco f)) old ++ filter is_from_pco new

-- The SET clause: every column but `id`, `orgId` and `_tag`.
unfoldable pub set_entity : Entity → Entity → Entity
set_entity old new = record old {
  custom_fields = merge_custom_fields old.custom_fields new.custom_fields;
  deleted_at = new.deleted_at;
  deleted_by = new.deleted_by;
  columns = new.columns;
}

module _ (rt : Runtime) (org : Text) where
  upsert_group : Error → Option Text → List Entity → Exec (Unit {0})
  upsert_group e none entities db = (ok tt, db)
  upsert_group e (some table) entities db =
      elim (upsert entity_key same_entity_key set_entity
        (map (λ (x : Entity). record x { table = table }) entities) db.entities) [
          | none ↦ (fail e, db)
          | some (results, rows) ↦ (ok tt, record db { entities = rows })
        ]

  -- One command for each tag. They run concurrently, on the tables of the tags.
  upsert_groups : Error → List (Text × List Entity) → Exec (Unit {0})
  upsert_groups e [] = pure tt
  upsert_groups e ((tag, entities) ∷ groups) =
      upsert_group e (table_in rt (rt.schema_of tag)) entities >> upsert_groups e groups

  -- `processEntities`; with no data there are no groups.
  unfoldable pub process_entities : List Entity → Exec (Unit {0})
  unfolding upsert_groups upsert_group
  process_entities entities =
      upsert_groups (entity_processing (length entities) org) (group_by (λ x. x.tag) entities)
