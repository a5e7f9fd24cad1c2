-- ===== src/Deletion.antt =====
-- Soft deletion: `deleteEntityId`, `deleteEntity`, `detectAndMarkDeleted` and `getExternalLink` of
-- backend/server/live/internalManagerLive.ts.
pub mod Laws
pub mod Entities
pub mod Failures
use openfaith.Common.{
  ℕ, Bool, true, false, ◌&&◌, ◌||◌, List, [], ◌∷◌, map, Option, none, some, ltb, any, head?, Text,
  lit, ◌===◌,
}
use openfaith.Sql.{select, update}
use openfaith.Store.{
  ExternalLink, Edge, Entity, Db, Exec, ◌>>=◌, ◌>>◌, pure, reads, writes, Runtime,
}

-- 'sync_deletion_detection'
unfoldable pub detection : Text
detection = lit "sync_deletion_detection"

abbrev pub is_live : Option ℕ → Bool
is_live none = true
is_live (some _) = false

abbrev pub mark_link : ℕ → ExternalLink → ExternalLink
mark_link now l = record l { deleted_at = some now; deleted_by = some detection }

abbrev pub mark_edge : ℕ → Edge → Edge
mark_edge now e = record e { deleted_at = some now; deleted_by = some detection }

abbrev pub mark_entity : ℕ → Entity → Entity
mark_entity now e = record e { deleted_at = some now; deleted_by = some detection }

-- An edge at either end of which the entity stands.
abbrev pub touches : Text → Edge → Bool
touches id e = e.source_entity_id === id || e.target_entity_id === id

module _ (org : Text) where
  -- The condition by which `deleteEntity` selects a link.
  abbrev pub is_link_of : Text → Text → ExternalLink → Bool
  is_link_of external_id adapter l =
      l.external_id === external_id
      && l.adapter === adapter
      && l.org_id === org
      && is_live l.deleted_at

  -- `getExternalLink`
  unfoldable pub get_external_link : Text → Text → Exec (Option ExternalLink)
  get_external_link internal_id adapter = do
    links ← reads (λ db.
        select
          (λ l.
            l.entity_id === internal_id
            && l.adapter === adapter
            && l.org_id === org
            && is_live l.deleted_at)
          db.links)
    pure (head? links)

  -- The condition by which `detectAndMarkDeleted` selects the stale links.
  abbrev pub is_stale : Text → Text → ℕ → ExternalLink → Bool
  is_stale adapter entity_type sync_start l =
      l.org_id === org
      && l.adapter === adapter
      && l.entity_type === entity_type
      && ltb l.last_processed_at sync_start
      && is_live l.deleted_at

  -- The condition by which it updates them.
  abbrev pub is_listed : Text → Text → List Text → ExternalLink → Bool
  is_listed adapter entity_type ids l =
      l.org_id === org
      && l.adapter === adapter
      && l.entity_type === entity_type
      && any (λ id. id === l.external_id) ids

  mark_stale : ℕ → Text → Text → List ExternalLink → Exec (List ExternalLink)
  mark_stale now adapter entity_type [] = pure []
  mark_stale now adapter entity_type (l ∷ ls) = do
    writes (λ db. record db {
      links =
          update (is_listed adapter entity_type (map (λ s. s.external_id) (l ∷ ls))) (mark_link now)
            db.links;
    })
    pure (l ∷ ls)

  -- `detectAndMarkDeleted`
  unfoldable pub detect_and_mark_deleted : ℕ → Text → Text → ℕ → Exec (List ExternalLink)
  unfolding mark_stale
  detect_and_mark_deleted now adapter entity_type sync_start = do
    stale ← reads (λ db. select (is_stale adapter entity_type sync_start) db.links)
    mark_stale now adapter entity_type stale

-- The table annotation of the schema of an entity type.
abbrev pub table_in : Runtime → Option Text → Option Text
table_in rt none = none
table_in rt (some schema) = rt.table_of schema

module _ (rt : Runtime) (org : Text) where
  -- The three updates of `deleteEntityId`. They run concurrently, on different tables.
  unfoldable pub mark_all : ℕ → Text → Text → Text → Db → Db
  mark_all now entity_id adapter table db = record db {
    links =
        update (λ l. l.org_id === org && l.adapter === adapter && l.entity_id === entity_id)
          (mark_link now) db.links;
    edges = update (λ e. e.org_id === org && touches entity_id e) (mark_edge now) db.edges;
    entities = update (λ e. e.table === table && e.id === entity_id) (mark_entity now) db.entities;
  }

  mark_in : ℕ → Text → Text → Option Text → Exec ℕ
  mark_in now entity_id adapter none = pure now
  mark_in now entity_id adapter (some table) = do
    writes (mark_all now entity_id adapter table)
    pure now

  -- `deleteEntityId`: an entity type with no schema, or whose schema has no table, is skipped. The
  -- result is `deletedAt`.
  unfoldable pub delete_entity_id : ℕ → Text → Text → Text → Exec ℕ
  unfolding mark_in
  delete_entity_id now entity_id entity_type adapter =
      mark_in now entity_id adapter (table_in rt (rt.schema_of entity_type))

  delete_found : ℕ → Text → Option ExternalLink → Exec (Unit {0})
  delete_found now adapter none = pure tt
  delete_found now adapter (some link) = do
    _ ← delete_entity_id now link.entity_id link.entity_type adapter
    pure tt

  -- `deleteEntity`
  unfoldable pub delete_entity : ℕ → Text → Text → Exec (Unit {0})
  unfolding delete_found
  delete_entity now external_id adapter = do
    links ← reads (λ db. select (is_link_of org external_id adapter) db.links)
    delete_found now adapter (head? links)
