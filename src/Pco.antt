-- ===== src/Pco.antt =====
-- The Planning Center adapter: adapters/pco/pcoAdapterManagerLive.ts. The HTTP client, the schemas
-- with their annotations and the schema-driven transformations are a parameter.
mod Client
pub mod Manifest
pub mod Extraction
pub mod Manager
pub mod Unchanged
pub mod Webhooks
pub use Client.*
unfoldable pub use Client.{pco}
use openfaith.Common.{
  ℕ, Bool, true, false, not, ◌&&◌, ◌||◌, List, [], ◌∷◌, ◌++◌, map, Option, none, some,
  if◌then◌else◌, any, filter, find, Text, lit, ◌===◌,
}
use openfaith.Store.{
  ExternalLink, Entity, Db, Error, adapter_entity_not_found, adapter_fetch, adapter_transform, Exit,
  ok, fail, die, Exec, ◌>>=◌, ◌>>◌, pure, fails, dies,
}
use openfaith.Links.{ExternalLinkInput, is_falsy, ProcessedLinks}
use openfaith.Relations.{flat_map, contains, group_by}
use openfaith.Schema.Relationships.{discover_pco_relationships}
use openfaith.Pco.Extraction.{of_entity_name_for_pco_entity_type, extract_relationships}
use openfaith.SyncEngine.{RelationshipInput, Callbacks, Values, AdapterManager}

abbrev is_there {ℓ} : {A : Type ℓ} → Option A → Bool
is_there none = false
is_there (some _) = true

unfoldable pub has_method : EntityClient → Bool
has_method c =
    is_there c.list || is_there c.get || is_there c.create || is_there c.update || is_there c.delete

-- An absent value is the failure `e`.
abbrev pub require {ℓ} : {A : Type ℓ} → Error → Option A → Exec A
require e none = fails e
require e (some a) = pure a

-- None is an exception that was thrown.
abbrev pub or_dies {ℓ} : {A : Type ℓ} → Option A → Exec A
or_dies none = dies
or_dies (some a) = pure a

abbrev pub map_exit {ℓ} : {A : Type ℓ} → Error → Exit A → Exit A
map_exit e (ok a) = ok a
map_exit e (fail _) = fail e
map_exit e die = die

-- `Effect.mapError`
unfoldable pub map_error {ℓ} : {A : Type ℓ} → Error → Exec A → Exec A
map_error e m db = (map_exit e (m db).0, (m db).1)

module _ (p : Pco) where
  usable : Text → Option EntityClient → Exec EntityClient
  usable type none = fails (adapter_entity_not_found pco type)
  usable type (some c) = if has_method c then pure c else fails (adapter_entity_not_found pco type)

  -- `getEntityClient`
  unfoldable pub get_entity_client : Text → Exec EntityClient
  unfolding usable
  get_entity_client type = usable type (p.client type)

  -- `pipe(lookup, Record.empty)` as a condition. `Record.empty` of the effect library makes a new
  -- record, whatever it is given, and an object is truthy. (A test for emptiness is
  -- `Record.isEmptyRecord`.)
  abbrev is_truthy_empty : List Text → Bool
  is_truthy_empty lookup = true

  -- The lookup has the filter of the first row's type, if it has one.
  abbrev data_lookup : List PcoEntity → List Text
  data_lookup [] = []
  data_lookup (x ∷ xs) = elim (p.keeps x.type) [ none ↦ [] | some f ↦ x.type ∷ [] ]

  -- Or that of every type that has one.
  abbrev included_lookup : List PcoEntity → List Text
  included_lookup es = flat_map (λ (x : PcoEntity). data_lookup (x ∷ [])) es

  keeps_in : List Text → PcoEntity → Bool
  keeps_in lookup e =
      if contains e.type lookup then elim (p.keeps e.type) [ none ↦ true | some f ↦ f e ] else true

  filter_unless_empty : List Text → List PcoEntity → List PcoEntity
  filter_unless_empty lookup es = if is_truthy_empty lookup then es else filter (keeps_in lookup) es

  -- `normalizeResponse`
  unfoldable pub normalize_response : Response → Response
  unfolding filter_unless_empty keeps_in
  normalize_response r = record {
    data_rows = filter_unless_empty (data_lookup r.data_rows) r.data_rows;
    included = filter_unless_empty (included_lookup r.included) r.included;
  }

  -- `updated_at || undefined`
  abbrev or_undefined : Option Text → Option Text
  or_undefined (some (c ∷ s)) = some (c ∷ s)
  or_undefined _ = none

  -- `createExternalLinks`, for one entity
  unfoldable pub link_input : PcoEntity → ExternalLinkInput
  link_input e = record {
    adapter = pco;
    entity_id = e.entity_id;
    external_id = e.id;
    entity_type = of_entity_name_for_pco_entity_type p e.type;
    created_at = some e.created_at;
    updated_at = or_undefined e.updated_at;
  }

  unfoldable pub create_external_links : List PcoEntity → List ExternalLinkInput
  create_external_links es = map link_input es

  transform_found : Text → ExternalLink → Option PcoEntity → List Entity → Exec (List Entity)
  transform_found org link none rest = pure rest
  transform_found org link (some e) rest = do
    entity ← require (adapter_transform pco e.type) (p.transform org link.entity_id e)
    pure (entity ∷ rest)

  -- The entities of the changed links, transformed.
  unfoldable pub transform_changed : Text → List PcoEntity → List ExternalLink → Exec (List Entity)
  unfolding transform_found
  transform_changed org es [] = pure []
  transform_changed org es (link ∷ links) = do
    rest ← transform_changed org es links
    transform_found org link (find (λ e. e.id === link.external_id) es) rest

  -- The ids that the relationships of an entity of a type point to, with the target types.
  abbrev targets_in : List (Text × Option Text) → Text × Text → List (Text × Text)
  targets_in rels (key, target_type) = elim (find (λ (r : Text × Option Text). r.0 === key) rels) [
    | none ↦ []
    | some r ↦ elim r.1 [
      | none ↦ []
      | some id ↦ if is_falsy (some id) then [] else (id, target_type) ∷ []
    ]
  ]

  abbrev targets_of : PcoEntity → List (Text × Text)
  targets_of e = flat_map (targets_in e.relationships) (discover_pco_relationships p.schemas e.type)

  missing_from : List ExternalLink → List Text → List (Text × Text) → List ExternalLinkInput
  missing_from links seen [] = []
  missing_from links seen ((id, target_type) ∷ targets) =
      let skipped = missing_from links seen targets in
      let added = missing_from links (id ∷ seen) targets in
      if any (λ (l : ExternalLink). l.external_id === id) links || contains id seen
      then skipped
      else record {
        adapter = pco;
        entity_id = none;
        external_id = id;
        entity_type = target_type;
        created_at = none;
        updated_at = none;
      }
        ∷ added

  -- The missing links of `extractRelationshipsEnhanced`: one reference for each related id that has
  -- no link yet, over the entities grouped by type.
  unfoldable pub missing_links : List PcoEntity → List ExternalLink → List ExternalLinkInput
  unfolding missing_from
  missing_links es links = missing_from links [] (
      flat_map (λ (g : Text × List PcoEntity). flat_map targets_of g.1)
        (group_by (λ (e : PcoEntity). e.type) es))

  extract_with :
      Callbacks
      → List PcoEntity
      → List ExternalLink
      → List ExternalLinkInput
      → Exec (List RelationshipInput)
  extract_with callbacks es links [] = or_dies (extract_relationships p es links)
  extract_with callbacks es links (m ∷ ms) = do
    processed ← callbacks.process_external_links (m ∷ ms) false
    or_dies (extract_relationships p es (links ++ processed.all_external_links))

  -- `extractRelationshipsEnhanced`
  unfoldable pub extract_relationships_enhanced :
      Callbacks → List PcoEntity → List ExternalLink → Exec (List RelationshipInput)
  unfolding extract_with
  extract_relationships_enhanced callbacks es links =
      extract_with callbacks es links (missing_links es links)

  -- `processPcoData`
  unfoldable pub process_pco_data : Callbacks → Text → Response → Bool → Exec (Unit {0})
  process_pco_data callbacks org r force = do
    processed ←
        callbacks.process_external_links
          (create_external_links r.data_rows ++ create_external_links r.included) force
    roots ← transform_changed org r.data_rows processed.changed_external_links
    included ← transform_changed org r.included processed.changed_external_links
    callbacks.process_entities (roots ++ included)
    relationships ←
        extract_relationships_enhanced callbacks (r.data_rows ++ r.included)
          processed.all_external_links
    callbacks.process_relationships relationships
