-- ===== src/Merge/Laws.antt =====
-- What a merge moves, and what it leaves behind when it fails.
use mathlib.Core.Option
use openfaith.Common.{
  ℕ, ◌&&◌, ◌≡◌, ◌∙◌, List, [], ◌∷◌, ◌++◌, map, Option, none, some, find, Text, ◌===◌,
}
use openfaith.Sql.{at_key, select}
use openfaith.Store.{
  ExternalLink, Metadata, Edge, Db, Error, ok, entity_merging, ◌>>=◌, pure, reads, Runtime,
}
use openfaith.Store.Keys.{edge_key, same_edge_key}
use openfaith.EdgeDirection.{EdgeDirection, decode}
use openfaith.Deletion.{touches, mark_all, table_in}
use openfaith.Deletion.Entities.{delete_entity_id_lem}
use openfaith.Merge.{redirect, merged_edge, is_merge_link, move_edges, merge_found, merge_entity}

-- What an upsert sets of an edge.
abbrev pub stamp : Edge → Metadata × Option ℕ
stamp e = (e.metadata, e.updated_at)

module _ (rt : Runtime) (org : Text) (now : ℕ) (keep_id remove_id adapter : Text) (db : Db) where
  -- The live links of the two external ids.
  abbrev pub merge_links : List ExternalLink
  merge_links = select (is_merge_link rt org keep_id remove_id adapter) db.links

  -- The edges of the removed entity, in the organisation, deleted ones included.
  abbrev pub edges_of : Text → List Edge
  edges_of remove = select (λ x. x.org_id === org && touches remove x) db.edges

  abbrev pub link_of : Text → Option ExternalLink
  link_of id = find (λ l. l.external_id === id) merge_links

  -- The edges of the removed entity, redirected, and the edge that records the merge.
  abbrev pub new_edges : Text → ExternalLink → EdgeDirection → List Edge
  new_edges remove keep_link d =
      map (redirect now remove keep_link.entity_id) (edges_of remove)
      ++ merged_edge rt org now adapter keep_link remove d ∷ []

  -- The database of the merge has, for an edge, its metadata and its time.
  abbrev pub IsMoved : Edge → Type 0
  IsMoved e =
      Option.map stamp (
        at_key edge_key same_edge_key (edge_key e)
          (merge_entity rt org now keep_id remove_id adapter db).1.edges)
      ≡ some (stamp e)

  module _ (remove_link : ExternalLink) (table : Text)
      (found : link_of remove_id ≡ some remove_link)
      (tabled : table_in rt (rt.schema_of remove_link.entity_type) ≡ some table) where
    abbrev pub remove : Text
    remove = remove_link.entity_id

    abbrev pub error : Error
    error = entity_merging adapter keep_id org remove_id

    -- After the removed entity is deleted, what is left is to move its edges.
    merge_entity_lem :
        merge_entity rt org now keep_id remove_id adapter db
        ≡ move_edges rt org error now adapter remove
            (edges_of remove)
            (link_of keep_id)
            (mark_all rt org now remove adapter table db)
    unfolding merge_entity merge_found ◌>>=◌ reads pure
    merge_entity_lem =
        rw (found, merge_entity)
          (rw (delete_entity_id_lem rt org now remove remove_link.entity_type adapter db tabled))

    -- Suppose that the removed id has a live link, of a type with a schema and a table. With no live
    -- link of the kept id, the merge succeeds, the removed entity is deleted, and its edges are not
    -- moved.
    pub merge_entity-no_keep :
        link_of keep_id ≡ none
        → merge_entity rt org now keep_id remove_id adapter db
          ≡ (ok tt, mark_all rt org now remove adapter table db)
    unfolding move_edges pure
    merge_entity-no_keep missing = merge_entity_lem ∙ rw missing

    module _ (keep_link : ExternalLink) (kept : link_of keep_id ≡ some keep_link)
        (d : EdgeDirection) (direction : decode keep_link.entity_id remove ≡ some d) where
      abbrev pub merged_db : Db
      merged_db = (merge_entity rt org now keep_id remove_id adapter db).1
