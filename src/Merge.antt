-- ===== src/Merge.antt =====
-- `mergeEntity` of backend/server/live/internalManagerLive.ts.
pub mod Laws
pub mod Redirect
pub mod Failures
use openfaith.Common.{
  ℕ, Bool, true, false, ◌&&◌, ◌||◌, List, [], ◌∷◌, ◌++◌, map, Option, none, some, if◌then◌else◌,
  find, Text, lit, ◌===◌,
}
use openfaith.Sql.{select, upsert}
use openfaith.Store.{
  ExternalLink, merge, Edge, ok, Error, fail, entity_merging, Exec, ◌>>=◌, pure, dies, reads,
  Runtime,
}
use openfaith.Store.Keys.{edge_key, same_edge_key}
use openfaith.EdgeDirection.{EdgeDirection, decode}
use openfaith.Deletion.{is_live, touches, delete_entity_id}

-- The SET clause of the edges.
abbrev pub set_edge : Edge → Edge → Edge
set_edge old new = record old { metadata = new.metadata; updated_at = new.updated_at }

-- `INSERT INTO edges VALUES … ON CONFLICT … DO UPDATE`, with the failure of its command.
unfoldable pub insert_edges : Error → List Edge → Exec (Unit {0})
insert_edges e rows db = elim (upsert edge_key same_edge_key set_edge rows db.edges) [
  | none ↦ (fail e, db)
  | some (results, table) ↦ (ok tt, record db { edges = table })
]

-- An edge of the removed entity, with the kept one in its place. Of an edge from the removed entity
-- to itself only the source moves.
unfoldable pub redirect : ℕ → Text → Text → Edge → Edge
redirect now remove keep e =
    if e.source_entity_id === remove
    then record e {
      source_entity_id = keep;
      created_at = now;
      created_by = some (lit "sync_merging");
      updated_at = some now;
    }
    else record e {
      target_entity_id = keep;
      created_at = now;
      created_by = some (lit "sync_merging");
      updated_at = some now;
    }

module _ (rt : Runtime) (org : Text) where
  -- The edge that records the merge.
  unfoldable pub merged_edge : ℕ → Text → ExternalLink → Text → EdgeDirection → Edge
  merged_edge now adapter keep_link remove d = record {
    created_at = now;
    created_by = some (lit "sync_merging");
    deleted_at = none;
    deleted_by = none;
    metadata = merge keep_link.entity_id keep_link.entity_type remove (adapter ++ lit "_merging");
    org_id = org;
    relationship_type = lit "merged";
    source_entity_id = d.source;
    source_entity_type_tag = keep_link.entity_type;
    target_entity_id = d.target;
    target_entity_type_tag = keep_link.entity_type;
    updated_at = some now;
    updated_by = some (lit "sync_merging");
  }

  abbrev is_merge_link : Text → Text → Text → ExternalLink → Bool
  is_merge_link keep_id remove_id adapter l =
      (l.external_id === remove_id || l.external_id === keep_id)
      && l.adapter === adapter
      && l.org_id === org
      && is_live l.deleted_at

  -- An empty id makes `decodeUnknownSync` throw.
  insert_merged :
      Error → ℕ → Text → ExternalLink → Text → List Edge → Option EdgeDirection → Exec (Unit {0})
  insert_merged e now adapter keep_link remove edges none = dies
  insert_merged e now adapter keep_link remove edges (some d) = insert_edges e (
      map (redirect now remove keep_link.entity_id) edges
      ++ merged_edge now adapter keep_link remove d ∷ [])

  move_edges : Error → ℕ → Text → Text → List Edge → Option ExternalLink → Exec (Unit {0})
  move_edges e now adapter remove edges none = pure tt
  move_edges e now adapter remove edges (some keep_link) =
      insert_merged e now adapter keep_link remove edges (decode keep_link.entity_id remove)

  merge_found : Error → ℕ → Text → Text → List ExternalLink → Option ExternalLink → Exec (Unit {0})
  merge_found e now keep_id adapter links none = pure tt
  merge_found e now keep_id adapter links (some remove_link) = do
    let remove = remove_link.entity_id
    edges ← reads (λ db. select (λ x. x.org_id === org && touches remove x) db.edges)
    deleted_at ← delete_entity_id rt org now remove remove_link.entity_type adapter
    move_edges e deleted_at adapter remove edges (find (λ l. l.external_id === keep_id) links)

  -- `mergeEntity`
  unfoldable pub merge_entity : ℕ → Text → Text → Text → Exec (Unit {0})
  unfolding merge_found move_edges insert_merged
  merge_entity now keep_id remove_id adapter = do
    links ← reads (λ db. select (is_merge_link keep_id remove_id adapter) db.links)
    merge_found (entity_merging adapter keep_id org remove_id) now keep_id adapter links
        (find (λ l. l.external_id === remove_id) links)
