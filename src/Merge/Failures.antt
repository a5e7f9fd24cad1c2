-- ===== src/Merge/Failures.antt =====
-- The only failure of `mergeEntity`.
use openfaith.Common.{
  ℕ, ◌≡◌, refl, sym, ◌∙◌, inl, inr, List, Option, none, some, Option-cases, Text,
}
use openfaith.Sql.{upsert}
use openfaith.Store.{ExternalLink, Edge, Db, Error, entity_merging, Exit, ok, fail, Runtime}
use openfaith.Store.Keys.{edge_key, same_edge_key}
use openfaith.Store.Failures.{
  FailsWith, failure_rules, FailsWith-bind, FailsWith-reads, fail_injective,
}
use openfaith.EdgeDirection.{EdgeDirection}
use openfaith.Deletion.Failures.{delete_entity_id-FailsWith}
use openfaith.Merge.{set_edge, insert_edges, insert_merged, move_edges, merge_found, merge_entity}

abbrev done : Exit (Unit {0})
done = ok tt

not_failed : (P : Error → Type 0) (e : Error) → done ≡ fail e → P e
not_failed P e h = cc

insert_edges-none :
    (x : Error) (rows : List Edge) (db : Db)
    → upsert edge_key same_edge_key set_edge rows db.edges ≡ none
    → (insert_edges x rows db).0 ≡ fail x
unfolding insert_edges
insert_edges-none x rows db n = rw (n, insert_edges) refl

insert_edges-some :
    (x : Error) (rows : List Edge) (db : Db) (r : List Edge × List Edge)
    → upsert edge_key same_edge_key set_edge rows db.edges ≡ some r
    → (insert_edges x rows db).0 ≡ ok tt
unfolding insert_edges
insert_edges-some x rows db r n = rw (n, insert_edges) refl

insert_edges-FailsWith :
    {P : Error → Type 0} (x : Error) (rows : List Edge) → P x → FailsWith P (insert_edges x rows)
insert_edges-FailsWith {P = P} x rows p = record {
  at = λ db e h. elim (Option-cases (upsert edge_key same_edge_key set_edge rows db.edges)) [
    | inl n ↦ rw (← fail_injective (Unit {0}) x e (sym (insert_edges-none x rows db n) ∙ h)) p
    | inr (r, n) ↦ not_failed P e (sym (insert_edges-some x rows db r n) ∙ h)
  ];
}

module _ {P : Error → Type 0} (rt : Runtime) (org : Text) (x : Error) (h : P x) where
  insert_merged-FailsWith :
      (now : ℕ) (adapter : Text) (l : ExternalLink) (remove : Text) (edges : List Edge)
      (d : Option EdgeDirection)
      → FailsWith P (insert_merged rt org x now adapter l remove edges d)
  unfolding insert_merged
  insert_merged-FailsWith now adapter l remove edges none = search failure_rules
  insert_merged-FailsWith now adapter l remove edges (some d) = insert_edges-FailsWith x _ h

  move_edges-FailsWith :
      (now : ℕ) (adapter remove : Text) (edges : List Edge) (l : Option ExternalLink)
      → FailsWith P (move_edges rt org x now adapter remove edges l)
  unfolding move_edges
  move_edges-FailsWith now adapter remove edges none = search failure_rules
  move_edges-FailsWith now adapter remove edges (some l) =
      insert_merged-FailsWith now adapter l remove edges _

  merge_found-FailsWith :
      (now : ℕ) (keep_id adapter : Text) (links : List ExternalLink) (l : Option ExternalLink)
      → FailsWith P (merge_found rt org x now keep_id adapter links l)
  unfolding merge_found
  merge_found-FailsWith now keep_id adapter links none = search failure_rules
  merge_found-FailsWith now keep_id adapter links (some l) =
      FailsWith-bind _ _ (FailsWith-reads _) (λ edges.
        FailsWith-bind _ _ (delete_entity_id-FailsWith rt org now _ _ adapter)
          (λ deleted_at. move_edges-FailsWith deleted_at adapter l.entity_id edges _))

pub merge_entity-FailsWith :
    {P : Error → Type 0} (rt : Runtime) (org : Text) (now : ℕ) (keep_id remove_id adapter : Text)
    → P (entity_merging adapter keep_id org remove_id)
    → FailsWith P (merge_entity rt org now keep_id remove_id adapter)
unfolding merge_entity
merge_entity-FailsWith rt org now keep_id remove_id adapter h =
    FailsWith-bind _ _ (FailsWith-reads _) (λ links.
      merge_found-FailsWith rt org (entity_merging adapter keep_id org remove_id) h now keep_id
        adapter links _)
