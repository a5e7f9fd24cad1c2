-- ===== src/Relationships.antt =====
-- `processRelationships` of backend/server/live/internalManagerLive.ts, with
-- `updateEntityRelationshipsForOrgE` of backend/server/helpers/updateEntityRelationships.ts.
pub mod Laws
use openfaith.Common.{
  ℕ, Bool, true, false, ◌&&◌, List, [], ◌∷◌, ◌++◌, map, Option, none, some, length, Text, ◌===◌,
}
use openfaith.Sql.{upsert}
use openfaith.Store.{
  Metadata, empty, Edge, Db, Error, relationship_processing, Exit, ok, fail, Exec, ◌>>=◌, ◌>>◌,
  pure,
}
use openfaith.Relations.{
  RelationshipTypes, dedupe, expand_bidirectional_pairs, group_by, group_pairs_by_source,
}
use openfaith.SyncEngine.{RelationshipInput}
use openfaith.Merge.{insert_edges}

-- A row of `entityRelationships`: the organisation, the source type and its target types.
abbrev pub Registered : Type 0
Registered = Text × Text × List Text

abbrev pub registry_key : Registered → Text × Text
registry_key r = (r.0, r.1)

unfoldable pub same_registry_key : Text × Text → Text × Text → Bool
same_registry_key (o, s) (o', s') = o === o' && s === s'

abbrev metadata_or_empty : Option Metadata → Metadata
metadata_or_empty none = empty
metadata_or_empty (some m) = m

-- The values that are inserted for a relationship.
unfoldable pub edge_value : Text → RelationshipInput → Edge
edge_value org e = record {
  created_at = e.created_at;
  created_by = e.created_by;
  deleted_at = e.deleted_at;
  deleted_by = e.deleted_by;
  metadata = metadata_or_empty e.metadata;
  org_id = org;
  relationship_type = e.relationship_type;
  source_entity_id = e.source_entity_id;
  source_entity_type_tag = e.source_entity_type_tag;
  target_entity_id = e.target_entity_id;
  target_entity_type_tag = e.target_entity_type_tag;
  updated_at = e.updated_at;
  updated_by = e.updated_by;
}

-- The unique relationships of the edges.
unfoldable pub types_of : List Edge → List RelationshipTypes
types_of edges =
    map
      (λ (g : Text × List Edge). record {
        source_entity_type_tag = g.0;
        target_entity_type_tags = dedupe (map (λ (e : Edge). e.target_entity_type_tag) g.1);
      })
      (group_by (λ e. e.source_entity_type_tag) edges)

-- `sort_distinct` is `jsonb_agg(DISTINCT … ORDER BY …)`: the distinct texts in the database's order.
module _ (sort_distinct : List Text → List Text) (org : Text) where
  set_registered : Registered → Registered → Registered
  set_registered (o, s, old) (_, _, new) = (o, s, sort_distinct (old ++ new))

  -- `updateEntityRelationshipsForOrgE`
  unfoldable pub update_entity_relationships : Error → List RelationshipTypes → Exec (Unit {0})
  unfolding set_registered
  update_entity_relationships e [] db = (ok tt, db)
  update_entity_relationships e (r ∷ rels) db =
      elim (upsert registry_key same_registry_key set_registered
        (map (λ (g : Text × List Text). (org, g.0, g.1))
          (group_pairs_by_source (expand_bidirectional_pairs (r ∷ rels))))
        db.relationships) [
          | none ↦ (fail e, db)
          | some (results, rows) ↦ (ok tt, record db { relationships = rows })
        ]

  -- `processRelationships`
  unfoldable pub process_relationships : List RelationshipInput → Exec (Unit {0})
  process_relationships [] = pure tt
  process_relationships (x ∷ xs) =
      let e = relationship_processing org (length (x ∷ xs)) in
      let edges = map (edge_value org) (x ∷ xs) in
      insert_edges e edges >> update_entity_relationships e (types_of edges)
