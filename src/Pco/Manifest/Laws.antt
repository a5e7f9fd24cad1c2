-- ===== src/Pco/Manifest/Laws.antt =====
-- Which entity types a sync is about: adapters/pco/api/pcoMkEntityManifest.ts with
-- backend/workers/workflows/externalSyncWorkflow.ts.
use openfaith.Common.{
  ◌≡◌, refl, ap, ◌∙◌, arith, Bool, true, false, any-filter, not, ◌&&◌, ◌||◌, List, [], ◌∷◌, map,
  any, filter_map, cons_some, some, none, Text, lit, ◌===◌, ===_iff, if◌then◌else◌,
}
use openfaith.Relations.{contains, group_by}
use openfaith.Relations.Groups.{
  are_distinct, items_of, names_of, items_of-group_by, group_by_distinct,
}
use openfaith.Workflows.Sync.{sync_entities}
use openfaith.Pco.Manifest.{
  Endpoint, skips, set_entry, entries_from, from_entries, has_entry, entity_registry, full_endpoint,
  manifest_entry, mk_pco_entity_manifest, get_entity_manifest,
}

module _ {ℓ} {A : Type ℓ} where
  has_entry-set :
      (n k : Text) (a : A) (entries : List (Text × A))
      → has_entry n (set_entry k a entries) ≡ (k === n || has_entry n entries)
  unfolding has_entry set_entry
  has_entry-set n k a [] = refl
  has_entry-set n k a ((j, b) ∷ entries) = ground (arith, has_entry-set n k a entries, ===_iff j k)

  has_entry-entries :
      (n : Text) (record_of entries : List (Text × A))
      → has_entry n (entries_from record_of entries)
        ≡ (has_entry n record_of || has_entry n entries)
  unfolding has_entry entries_from
  has_entry-entries n record_of [] = ground arith
  has_entry-entries n record_of ((k, a) ∷ entries) =
      has_entry-entries n (set_entry k a record_of) entries
      ∙ ground (arith, has_entry-set n k a record_of)

-- The endpoints of one entity make it one that is synced.
abbrev is_synced : List Endpoint → Bool
is_synced es = any (λ (e : Endpoint). e.name === lit "list") es && not (any skips es)

-- The names in `has_list` are those of the endpoints.
list-endpoints :
    (mk_entity_name mk_table_name : Text → Text) (registry : List (Text × Text))
    (es : List Endpoint)
    → has_entry
        (lit "list")
        (map (λ (x : Endpoint). (x.name, full_endpoint mk_table_name mk_entity_name registry x)) es)
      ≡ any (λ (e : Endpoint). e.name === lit "list") es
unfolding has_entry
list-endpoints mk_entity_name mk_table_name registry [] = refl
list-endpoints mk_entity_name mk_table_name registry (e ∷ es) =
    ap (λ b. e.name === lit "list" || b) (list-endpoints mk_entity_name mk_table_name registry es)

list-from_entries :
    (mk_entity_name mk_table_name : Text → Text) (registry : List (Text × Text))
    (es : List Endpoint)
    → has_entry (lit "list") (
        from_entries (
          map
            (λ (x : Endpoint). (x.name, full_endpoint mk_table_name mk_entity_name registry x))
            es))
      ≡ any (λ (e : Endpoint). e.name === lit "list") es
unfolding from_entries has_entry
list-from_entries mk_entity_name mk_table_name registry es =
    has_entry-entries (lit "list") [] _ ∙ list-endpoints mk_entity_name mk_table_name registry es

cons-if :
    (b : Bool) (k : Text) (ks : List Text)
    → cons_some (if b then some k else none) ks ≡ (if b then k ∷ ks else ks)
cons-if true k ks = refl
cons-if false k ks = refl

module _ (mk_table_name mk_entity_name : Text → Text) (registry : List (Text × Text)) where
  -- The entity types that are synced of some groups
  synced : List (Text × List Endpoint) → List Text
  synced groups = sync_entities (
      get_entity_manifest
        (filter_map (manifest_entry mk_table_name mk_entity_name registry) groups))

  synced-cons :
      (k : Text) (es : List Endpoint) (groups : List (Text × List Endpoint))
      → synced ((k, es) ∷ groups) ≡ (if is_synced es then k ∷ synced groups else synced groups)
  unfolding synced sync_entities get_entity_manifest
  synced-cons k [] groups = refl
  synced-cons k (e ∷ es) groups =
      rw (list-from_entries mk_entity_name mk_table_name registry (e ∷ es))
        (cons-if (is_synced (e ∷ es)) k (synced groups))

  contains-synced_none :
      (n : Text) (groups : List (Text × List Endpoint))
      → contains n (names_of groups) ≡ false
      → contains n (synced groups) ≡ false
  unfolding synced sync_entities get_entity_manifest
  contains-synced_none n [] h = refl
  contains-synced_none n ((k, es) ∷ groups) h =
      ap (contains n) (synced-cons k es groups) ∙ ground (arith, contains-synced_none n groups)

  contains-synced :
      (n : Text) (groups : List (Text × List Endpoint))
      → are_distinct (names_of groups) ≡ true
      → contains n (synced groups) ≡ is_synced (items_of n groups)
  unfolding synced sync_entities get_entity_manifest
  contains-synced n [] h = refl
  contains-synced n ((k, es) ∷ groups) h =
      ap (contains n) (synced-cons k es groups)
      ∙ ground (arith, contains-synced n groups, contains-synced_none n groups, ===_iff k n)

-- An entity type is one that a sync of Planning Center is about exactly when one of its endpoints is
-- called list and none says that the sync skips it, whatever the order of the endpoints.
pub contains-sync_entities :
    (mk_table_name mk_entity_name : Text → Text) (endpoints : List Endpoint) (n : Text)
    → contains n (
        sync_entities
          (get_entity_manifest (mk_pco_entity_manifest mk_table_name mk_entity_name endpoints)))
      ≡ (any (λ (e : Endpoint). e.entity === n && e.name === lit "list") endpoints
          && not (any (λ (e : Endpoint). e.entity === n && skips e) endpoints))
unfolding mk_pco_entity_manifest sync_entities synced
contains-sync_entities mk_table_name mk_entity_name endpoints n =
    let groups = group_by (λ (e : Endpoint). e.entity) endpoints in
    contains-synced mk_table_name mk_entity_name
      (entity_registry mk_table_name mk_entity_name groups) n groups
      (group_by_distinct (λ (e : Endpoint). e.entity) endpoints)
    ∙ ap is_synced (items_of-group_by (λ (e : Endpoint). e.entity) n endpoints)
    ∙ rw
        (
          any-filter (λ (e : Endpoint). e.entity === n) (λ (e : Endpoint). e.name === lit "list")
              endpoints,
          any-filter (λ (e : Endpoint). e.entity === n) skips endpoints,
        )
        refl
