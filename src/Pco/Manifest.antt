-- ===== src/Pco/Manifest.antt =====
-- adapters/pco/api/pcoMkEntityManifest.ts: the entities of Planning Center with their endpoints, made of
-- the list of all endpoints; and what the sync reads of it.
pub mod Laws
use openfaith.Common.{
  Bool, true, false, ◌||◌, List, [], ◌∷◌, map, any, Option, none, some, if◌then◌else◌, find,
  filter_map, Text, lit, ◌===◌,
}
use openfaith.Relations.{group_by}
use openfaith.Workflows.Sync.{ManifestEntity}

pub data Method : Type 0 where
  get post patch other : Method

pub record FieldsStructure : Type 0 where
  pub fields : List Text
  pub special : List Text

-- The definition of an endpoint. A schema of the API goes by the literal of its field `type`.
pub record Endpoint : Type 0 where
  pub entity : Text
  pub name : Text
  pub module_name : Text
  pub method : Method
  pub api_schema : Text
  pub skip_sync : Option Bool
  pub is_collection : Bool
  pub includes : List Text
  pub creatable_fields : Option FieldsStructure
  pub updatable_fields : Option FieldsStructure

-- What a response includes: the schema of an entity, or a struct with any attributes and a type.
pub data Included : Type 0 where
  registered assumed : Text → Included

-- `mkPcoCollectionSchema` and `mkPcoSingleSchema`
pub data Response : Type 0 where
  collection single : (api_schema : Text) → List Included → Response

-- `mkPcoPayloadSchema`
pub record Payload : Type 0 where
  pub entity_type : Text
  pub fields : List Text
  pub special : List Text
  pub make_optional : Bool

-- An endpoint with its payload, if it has one, and its response.
pub record FullEndpoint : Type 0 where
  pub endpoint : Endpoint
  pub payload : Option Payload
  pub response : Response

pub record ManifestEntry : Type 0 where
  pub api_schema : Text
  pub endpoints : List (Text × FullEndpoint)
  pub entity : Text
  pub module_name : Text
  pub skip_sync : Bool

module _ {ℓ} {A : Type ℓ} where
  -- A property is set: it keeps its place when it is there.
  unfoldable pub set_entry : Text → A → List (Text × A) → List (Text × A)
  set_entry k a [] = (k, a) ∷ []
  set_entry k a ((j, b) ∷ entries) =
      if j === k then (j, a) ∷ entries else (j, b) ∷ set_entry k a entries

  entries_from : List (Text × A) → List (Text × A) → List (Text × A)
  entries_from record_of [] = record_of
  entries_from record_of ((k, a) ∷ entries) = entries_from (set_entry k a record_of) entries

  -- `Record.fromEntries`
  unfoldable pub from_entries : List (Text × A) → List (Text × A)
  unfolding entries_from
  from_entries entries = entries_from [] entries

  -- `key in record`
  unfoldable pub has_entry : Text → List (Text × A) → Bool
  has_entry k entries = any (λ (e : Text × A). e.0 === k) entries

abbrev fields_of : Option FieldsStructure → List Text
fields_of none = []
fields_of (some f) = f.fields

abbrev special_of : Option FieldsStructure → List Text
special_of none = []
special_of (some f) = f.special

abbrev is_true : Option Bool → Bool
is_true (some true) = true
is_true _ = false

-- `skipSync` of an endpoint is true.
abbrev pub skips : Endpoint → Bool
skips e = is_true e.skip_sync

-- The schemas by their table names, and the names that the includes have.
module _ (mk_table_name mk_entity_name : Text → Text) where
  abbrev registry_entry : Text × List Endpoint → Option (Text × Text)
  registry_entry (entity, []) = none
  registry_entry (entity, e ∷ _) = some (mk_table_name e.api_schema, e.api_schema)

  -- `PcoEntityRegistry`
  unfoldable pub entity_registry : List (Text × List Endpoint) → List (Text × Text)
  entity_registry groups = from_entries (filter_map registry_entry groups)

  abbrev included_as : Text → Option (Text × Text) → Included
  included_as name none = assumed (mk_entity_name name)
  included_as name (some (_, api_schema)) = registered api_schema

  unfoldable pub included : List (Text × Text) → Text → Included
  included registry name = included_as name (find (λ (r : Text × Text). r.0 === name) registry)

  abbrev writing : Endpoint → Option FieldsStructure → Bool → FullEndpoint
  writing e written make_optional = record {
    endpoint = e;
    payload = some (record {
      entity_type = e.api_schema;
      fields = fields_of written;
      special = special_of written;
      make_optional = make_optional;
    });
    response = single e.api_schema [];
  }

  -- The endpoint with its schemas, by its method
  unfoldable pub full_endpoint : List (Text × Text) → Endpoint → FullEndpoint
  full_endpoint registry e = elim e.method [
    | get ↦ record {
      endpoint = e;
      payload = none;
      response =
          if e.is_collection
          then collection e.api_schema (map (included registry) e.includes)
          else single e.api_schema (map (included registry) e.includes);
    }
    | post ↦ writing e e.creatable_fields false
    | patch ↦ writing e e.updatable_fields true
    | other ↦ record { endpoint = e; payload = none; response = single e.api_schema [] }
  ]

  abbrev pub manifest_entry :
      List (Text × Text) → Text × List Endpoint → Option (Text × ManifestEntry)
  manifest_entry registry (entity, []) = none
  manifest_entry registry (entity, e ∷ es) = some (
    entity,
    record {
      api_schema = e.api_schema;
      endpoints =
          from_entries (map (λ (x : Endpoint). (x.name, full_endpoint registry x)) (e ∷ es));
      entity = entity;
      module_name = e.module_name;
      skip_sync = any skips (e ∷ es);
    },
  )

  -- `entities` of `mkPcoEntityManifest`. The groups have different names.
  unfoldable pub mk_pco_entity_manifest : List Endpoint → List (Text × ManifestEntry)
  mk_pco_entity_manifest endpoints =
      let groups = group_by (λ (e : Endpoint). e.entity) endpoints in
      filter_map (manifest_entry (entity_registry groups)) groups

-- `getEntityManifest`, as far as the sync reads its values
unfoldable pub get_entity_manifest : List (Text × ManifestEntry) → List ManifestEntity
get_entity_manifest entities =
    map
      (λ (e : Text × ManifestEntry). record {
        entity = e.1.entity;
        has_list = has_entry (lit "list") e.1.endpoints;
        skip_sync = e.1.skip_sync;
      })
      entities
