-- ===== src/Deletion/Entities.antt =====
-- `deleteEntity`: what is live afterwards.
use openfaith.Common.{
  ℕ, Bool, ◌&&◌, ◌≡◌, refl, ap, inl, inr, List, [], ◌∷◌, Option, none, some, arith, Option-cases,
  filter, head?, Text, ◌===◌, ===_iff, ===-refl,
}
use openfaith.Sql.{at_key, update, select}
use openfaith.Sql.Laws.{HasUniqueKeys}
use openfaith.Sql.Rows.{select-update_none}
use openfaith.Store.{ExternalLink, Edge, Entity, Db, ok, ◌>>=◌, pure, reads, writes, Runtime}
use openfaith.Store.Keys.{link_key, same_link_key}
use openfaith.Links.Laws.{HasUniqueLinks}
use openfaith.Deletion.{
  mark_link, mark_edge, mark_entity, is_live, is_link_of, touches, mark_all, mark_in, table_in,
  delete_found, delete_entity_id, delete_entity,
}

module _ (org external_id adapter : Text) where
  -- The condition by which `mark_all` updates the links.
  abbrev is_linked_to : Text → ExternalLink → Bool
  is_linked_to entity_id l = l.org_id === org && l.adapter === adapter && l.entity_id === entity_id

  others-dead :
      (now : ℕ) (entity_id : Text) (links : List ExternalLink)
      → at_key link_key same_link_key (org, adapter, external_id) links ≡ none
      → filter
          (is_link_of org external_id adapter)
          (update (is_linked_to entity_id) (mark_link now) links)
        ≡ []
  unfolding update at_key same_link_key
  others-dead now entity_id [] e = refl
  others-dead now entity_id (l ∷ links) e = ground (arith, others-dead now entity_id links)

  -- After the link of an external id is marked, no link of that id is live.
  marked-dead :
      (now : ℕ) (links : List ExternalLink) (l : ExternalLink)
      → HasUniqueKeys link_key same_link_key links
      → head? (filter (is_link_of org external_id adapter) links) ≡ some l
      → filter
          (is_link_of org external_id adapter)
          (update (is_linked_to l.entity_id) (mark_link now) links)
        ≡ []
  unfolding update
  marked-dead now [] l u e = refl
  marked-dead now (h ∷ links) l (fresh, u) e = ground (
    arith,
    marked-dead now links l u,
    others-dead now h.entity_id links,
    ===-refl h.entity_id,
    ===_iff h.org_id org,
    ===_iff h.adapter adapter,
    ===_iff h.external_id external_id,
  )

module _ (rt : Runtime) (org : Text) where
  -- The link that `deleteEntity` acts on.
  abbrev pub found_link : Text → Text → Db → Option ExternalLink
  found_link external_id adapter db = head? (select (is_link_of org external_id adapter) db.links)

  -- A live edge of the entity, and its live row.
  abbrev pub is_live_edge_of : Text → Edge → Bool
  is_live_edge_of id e = e.org_id === org && touches id e && is_live e.deleted_at

  abbrev pub is_live_entity : Text → Text → Entity → Bool
  is_live_entity table id e = e.table === table && e.id === id && is_live e.deleted_at

  pub record IsDeleted (external_id adapter entity_id table : Text) (db : Db) : Type 0 where
    pub links : select (is_link_of org external_id adapter) db.links ≡ []
    pub edges : select (is_live_edge_of entity_id) db.edges ≡ []
    pub entities : select (is_live_entity table entity_id) db.entities ≡ []

  pub delete_entity_id_lem :
      (now : ℕ) (entity_id entity_type adapter : Text) (db : Db) {table : Text}
      → table_in rt (rt.schema_of entity_type) ≡ some table
      → delete_entity_id rt org now entity_id entity_type adapter db
        ≡ (ok now, mark_all rt org now entity_id adapter table db)
  unfolding delete_entity_id mark_in ◌>>=◌ pure writes
  delete_entity_id_lem now entity_id entity_type adapter db t = rw t

  delete_entity_lem :
      (now : ℕ) (external_id adapter : Text) (db : Db) (link : ExternalLink)
      → found_link external_id adapter db ≡ some link
      → {table : Text} → table_in rt (rt.schema_of link.entity_type) ≡ some table
      → delete_entity rt org now external_id adapter db
        ≡ (ok tt, mark_all rt org now link.entity_id adapter table db)
  unfolding delete_entity delete_found delete_entity_id mark_in ◌>>=◌ pure reads writes
  delete_entity_lem now external_id adapter db link found t = rw (found, delete_entity) (rw t)

  pub delete_entity-IsDeleted :
      (now : ℕ) (external_id adapter : Text) (db : Db) (link : ExternalLink) (table : Text)
      → HasUniqueLinks db
      → found_link external_id adapter db ≡ some link
      → table_in rt (rt.schema_of link.entity_type) ≡ some table
      → ((delete_entity rt org now external_id adapter db).0 ≡ ok tt)
        × IsDeleted external_id adapter link.entity_id table
            (delete_entity rt org now external_id adapter db).1
  unfolding mark_all
  delete_entity-IsDeleted now external_id adapter db link table u found t =
      rw (delete_entity_lem now external_id adapter db link found t) (
        refl,
        record {
          links = marked-dead org external_id adapter now db.links link u found;
          edges = select-update_none _ _ (mark_edge now) db.edges (λ e. ground arith);
          entities = select-update_none _ _ (mark_entity now) db.entities (λ e. ground arith);
        },
      )

  -- Deleting by an external id that has no live link succeeds and changes nothing.
  pub delete_entity-missing :
      (now : ℕ) (external_id adapter : Text) (db : Db)
      → found_link external_id adapter db ≡ none
      → delete_entity rt org now external_id adapter db ≡ (ok tt, db)
  unfolding delete_entity delete_found ◌>>=◌ pure reads
  delete_entity-missing now external_id adapter db missing = rw (missing, delete_entity)

  -- A link of a type with no schema, or no table, is left alone.
  delete_entity-untabled :
      (now : ℕ) (external_id adapter : Text) (db : Db) (link : ExternalLink)
      → found_link external_id adapter db ≡ some link
      → table_in rt (rt.schema_of link.entity_type) ≡ none
      → delete_entity rt org now external_id adapter db ≡ (ok tt, db)
  unfolding delete_entity delete_found delete_entity_id mark_in ◌>>=◌ pure reads
  delete_entity-untabled now external_id adapter db link found t = rw (found, delete_entity) (rw t)

  -- If the primary keys of the links are unique, deleting by the same external id again, at a
  -- later time, succeeds and changes nothing.
  pub delete_entity_idempotent :
      (now later : ℕ) (external_id adapter : Text) (db : Db)
      → HasUniqueLinks db
      → delete_entity rt org later external_id adapter
          (delete_entity rt org now external_id adapter db).1
        ≡ (ok tt, (delete_entity rt org now external_id adapter db).1)
  delete_entity_idempotent now later external_id adapter db u =
      elim (Option-cases (found_link external_id adapter db)) [
        | inl missing ↦
            rw (delete_entity-missing now external_id adapter db missing)
              (delete_entity-missing later external_id adapter db missing)
        | inr (link, found) ↦ elim (Option-cases (table_in rt (rt.schema_of link.entity_type))) [
          | inl t ↦
              rw (delete_entity-untabled now external_id adapter db link found t)
                (delete_entity-untabled later external_id adapter db link found t)
          | inr (table, t) ↦
              let (_, deleted) =
                delete_entity-IsDeleted now external_id adapter db link table u found t in
              delete_entity-missing later external_id adapter _ (ap head? deleted.links)
        ]
      ]
