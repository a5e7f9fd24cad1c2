-- ===== src/Relationships/Laws.antt =====
-- `processRelationships` leaves the table of the links alone.
use openfaith.Common.{refl, inl, inr, List, [], ◌∷◌, map, Option-cases, Text}
use openfaith.Sql.{upsert}
use openfaith.Store.{Edge, Error}
use openfaith.Store.Effects.{Ensures, effect_rules, SameLinks, SameLinks-preorder}
use openfaith.Store.Keys.{edge_key, same_edge_key}
use openfaith.Merge.{insert_edges, set_edge}
use openfaith.Relations.{RelationshipTypes, group_pairs_by_source, expand_bidirectional_pairs}
use openfaith.Relationships.{
  update_entity_relationships, process_relationships, registry_key, same_registry_key,
  set_registered,
}
use openfaith.SyncEngine.{RelationshipInput}

insert_edges-links : (e : Error) (rows : List Edge) → Ensures SameLinks (insert_edges e rows)
unfolding insert_edges
insert_edges-links e rows = record {
  at = λ db. elim (Option-cases (upsert edge_key same_edge_key set_edge rows db.edges)) [
    | inl n ↦ rw (n, insert_edges) refl
    | inr (r, s) ↦ rw (s, insert_edges) refl
  ];
}

module _ (sort_distinct : List Text → List Text) (org : Text) where
  registered-links :
      (e : Error) (rels : List RelationshipTypes)
      → Ensures SameLinks (update_entity_relationships sort_distinct org e rels)
  unfolding update_entity_relationships
  registered-links e [] = record { at = λ db. refl }
  registered-links e (r ∷ rels) = record {
    at = λ db.
        elim (Option-cases (
          upsert registry_key same_registry_key (set_registered sort_distinct org)
            (map (λ (g : Text × List Text). (org, g.0, g.1))
              (group_pairs_by_source (expand_bidirectional_pairs (r ∷ rels))))
            db.relationships)) [
              | inl n ↦ rw (n, update_entity_relationships) refl
              | inr (r, s) ↦ rw (s, update_entity_relationships) refl
            ];
  }

  pub process_relationships-links :
      (rs : List RelationshipInput) → Ensures SameLinks (process_relationships sort_distinct org rs)
  unfolding process_relationships
  process_relationships-links [] = search (effect_rules, SameLinks-preorder)
  process_relationships-links (x ∷ xs) =
      search (effect_rules, SameLinks-preorder, insert_edges-links, registered-links)
