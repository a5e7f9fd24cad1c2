-- ===== src/Tests/Sync.antt =====
-- The theorems on the sync engine over Planning Center, on the example data.
use openfaith.Common.{arith, ℕ, true, ◌≡◌, refl, ap, ◌∙◌, [], ◌∷◌, Option, some, lit, ◌===◌}
use openfaith.Sql.{at_key, upsert, upsert_rows, upsert_row, has_distinct_keys, update}
use openfaith.Store.{◌>>=◌, pure, fails, dies, reads, writes}
use openfaith.Store.Keys.{same_link_key}
use openfaith.Links.{
  partition_by_data_presence, filter_changed, set_entity_link, entity_value, reference_value,
  insert_links, process_entity_links, process_reference_links, process_external_links,
}
use openfaith.Links.Laws.{link_at}
use openfaith.Relations.{group_by}
use openfaith.Deletion.{mark_link, detection, detect_and_mark_deleted}
use openfaith.Entities.{process_entities}
use openfaith.Relationships.{process_relationships}
use openfaith.SyncEngine.{Callbacks, CrudOp, delete, external_sync_entity, process_mutation}
use openfaith.InternalManager.{internal_callbacks}
use openfaith.Schema.Relationships.{discover_pco_relationships}
use openfaith.Pco.Extraction.{extract_relationships, relationships_of, candidates}
use openfaith.Pco.{
  EntityClient, Page, pco, has_method, map_error, get_entity_client, normalize_response, link_input,
  create_external_links, transform_changed, missing_links, extract_relationships_enhanced,
  process_pco_data,
}
use openfaith.Pco.Unchanged.{AllUnchanged}
use openfaith.Pco.Manager.{sync_entity_type, manager}
use openfaith.Pco.Manager.Syncing.{external_sync-deletes_unchanged}
use openfaith.Pco.Manager.Pages.{last, process_all, sync_entity_type-Pages}
use openfaith.Pco.Manager.Deleting.{process_mutation-delete_unmoved}
use openfaith.Tests.{
  people_client, org, person, runtime, link, db, webhook_api, planning_center, first_page, pages,
}

abbrev pub callbacks : Callbacks
callbacks = internal_callbacks runtime (λ types. types) org (λ _. 9) true

some_injective : {A : Type 0} {a b : A} → some a ≡ some b → a ≡ b
some_injective e = cc

pages-AllUnchanged :
    (c : EntityClient) (method : ℕ → Option Page) (o : ℕ) (page : Page)
    → planning_center.client person ≡ some c
    → c.list ≡ some method
    → method o ≡ some page
    → AllUnchanged runtime org (org, pco, b'x' ∷ []) 97 planning_center page.response
unfolding link_input ◌===◌ lit pco same_link_key
pages-AllUnchanged c method o page found list e =
    let same : pages ≡ method =
      some_injective (ap (λ (x : EntityClient). x.list) (some_injective found) ∙ list) in
    let is_first : first_page ≡ page =
      some_injective (ap (λ (m : ℕ → Option Page). m o) same ∙ e) in
    rw (← is_first) ((refl, tt), tt)

external_sync-deletes_unchanged_example :
    (now : ℕ) × (link_at
        (org, pco, b'x' ∷ [])
        (external_sync_entity runtime org
          (λ _. 9)
          (λ n. n)
          (manager planning_center org webhook_api 1)
          callbacks
          person
          db).1
      ≡ some (mark_link now (link b'x' b'a')))
unfolding external_sync_entity sync_entity_type internal_callbacks process_external_links ◌>>=◌
    reads pure get_entity_client has_method process_pco_data normalize_response
    create_external_links link_input map_error fails dies writes partition_by_data_presence
    filter_changed set_entity_link entity_value reference_value insert_links process_entity_links
    process_reference_links transform_changed missing_links extract_relationships_enhanced
    process_entities process_relationships group_by detect_and_mark_deleted detection update upsert
    upsert_rows upsert_row has_distinct_keys at_key same_link_key ◌===◌ lit pco
    discover_pco_relationships extract_relationships relationships_of candidates
external_sync-deletes_unchanged_example =
    external_sync-deletes_unchanged runtime (λ types. types) org (λ _. 9) true (λ n. n)
      planning_center webhook_api 1 person db (org, pco, b'x' ∷ []) (link b'x' b'a') 97
      pages-AllUnchanged refl refl refl refl

abbrev deletion : CrudOp
deletion = record { op = delete; table_name = person; internal_id = b'a' ∷ []; value = [] }

process_mutation-delete_unmoved_example :
    (process_mutation runtime org
      (λ _. 9)
      (λ n. n)
      (manager planning_center org webhook_api 1)
      callbacks
      deletion
      db).1
    ≡ db
unfolding ◌===◌ pco lit
process_mutation-delete_unmoved_example =
    process_mutation-delete_unmoved runtime org (λ _. 9) (λ n. n) planning_center webhook_api 1
      callbacks deletion db refl refl

sync_entity_type-Pages_example :
    sync_entity_type planning_center org 7 callbacks person
    ≡ process_all planning_center org callbacks person (first_page ∷ []) true
sync_entity_type-Pages_example =
    sync_entity_type-Pages planning_center org callbacks person 7 people_client pages
      (first_page ∷ []) true refl refl (last refl refl) (omega arith)
