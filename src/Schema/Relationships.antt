-- ===== src/Schema/Relationships.antt =====
-- The relationships that a schema of Planning Center declares: `discoverPcoRelationships` of
-- adapters/pco/helpers/relationshipDiscovery.ts, and the annotations that `extractRelationships` of
-- adapters/pco/pcoAdapterManagerLive.ts reads.
pub mod Laws
use openfaith.Common.{
  Bool, true, false, ◌||◌, ◌++◌, List, [], ◌∷◌, Option, none, some, find, filter_map, Text, lit,
  ◌===◌, to_lower,
}
use openfaith.Schema.{
  text, SchemaName, Annotations, Ast, literal, type_literal, union, transformation, Types, no_types,
  type_and, Properties, Property, properties, property_named, get_annotation_from_schema,
  extract_entity_name,
}

-- A literal text, in lower case.
abbrev literal_title : Ast → Option Text
literal_title (literal _ (text t)) = some (to_lower t)
literal_title _ = none

abbrev type_in : Option Property → Option Text
type_in none = none
type_in (some p) = literal_title p.type

-- The property `type` of a type literal, in lower case.
literal_type : Ast → Option Text
literal_type (type_literal _ ps) = type_in (property_named (lit "type") ps)
literal_type _ = none

-- The first member of a union that is a type literal.
first_literal_type : Types → Option Text
first_literal_type no_types = none
first_literal_type (type_and (type_literal a ps) ts) = literal_type (type_literal a ps)
first_literal_type (type_and _ ts) = first_literal_type ts

-- `extractFromDataType`
extract_from_data_type : Ast → Option Text
extract_from_data_type (union _ ts) = first_literal_type ts
extract_from_data_type ast = literal_type ast

abbrev data_type : (Ast → Option Text) → Option Property → Option Text
data_type read none = none
data_type read (some p) = read p.type

-- `{ relKey: { data: { type: 'EntityType' } } }`, with the reading of the type of `data`
from_structure : (Ast → Option Text) → Ast → Option Text
from_structure read (type_literal _ ps) = data_type read (property_named (lit "data") ps)
from_structure read _ = none

abbrev keyed : Text → Option Text → Option (Text × Text)
keyed key none = none
keyed key (some target) = some (key, target)

discovered_target : Ast → Option SchemaName → Option Text
discovered_target type (some schema) = extract_entity_name schema
discovered_target type none = from_structure extract_from_data_type type

abbrev discovered : Property → Option (Text × Text)
discovered p =
    keyed p.name (discovered_target p.type (get_annotation_from_schema (λ a. a.of_entity) p.type))

abbrev entries_in : (Property → Option (Text × Text)) → Ast → List (Text × Text)
entries_in read (type_literal _ ps) = filter_map read (properties ps)
entries_in read _ = []

-- The properties of the field `relationships`. The keys of a type literal are different, so that the
-- record of the entries is their list.
abbrev in_relationships : (Property → Option (Text × Text)) → Option Property → List (Text × Text)
in_relationships read none = []
in_relationships read (some field) = entries_in read field.type

-- `extractRelationships` in `discoverPcoRelationships`
unfoldable pub discover_relationships : Ast → List (Text × Text)
unfolding literal_type first_literal_type extract_from_data_type from_structure discovered_target
discover_relationships (type_literal _ ps) =
    in_relationships discovered (property_named (lit "relationships") ps)
discover_relationships (transformation _ _ from to) = discover_relationships from
discover_relationships _ = []

-- A title, or the name of the constructor in lower case, or 'unknown'.
abbrev title_or_unknown : SchemaName → Text
title_or_unknown n = elim n.title [
  | some t ↦ t
  | none ↦ elim n.constructor_name [ [] ↦ lit "unknown" | c ∷ s ↦ to_lower (c ∷ s) ]
]

annotated_target : Ast → Option SchemaName → Option Text
annotated_target type (some schema) = some (title_or_unknown schema)
annotated_target type none = from_structure literal_type type

abbrev annotated : Property → Option (Text × Text)
annotated p =
    keyed p.name (annotated_target p.type (get_annotation_from_schema (λ a. a.of_entity) p.type))

-- `relationshipAnnotations` of `extractRelationships`
unfoldable pub relationship_annotations : Ast → List (Text × Text)
unfolding literal_type from_structure annotated_target
relationship_annotations (type_literal _ ps) =
    in_relationships annotated (property_named (lit "relationships") ps)
relationship_annotations _ = []

-- `discoverPcoRelationships`: the schema that is exported under a name of the entity type. An export
-- that is no schema is none.
unfoldable pub discover_pco_relationships : List (Text × Option Ast) → Text → List (Text × Text)
discover_pco_relationships exports entity_type =
    elim (find (λ (e : Text × Option Ast). e.0 === lit "Pco" ++ entity_type || e.0 === entity_type)
      exports) [
        | none ↦ []
        | some e ↦ elim e.1 [ none ↦ [] | some ast ↦ discover_relationships ast ]
      ]
