-- ===== src/Pco/Extraction.antt =====
-- `extractRelationships` of adapters/pco/pcoAdapterManagerLive.ts, with the names of
-- adapters/pco/helpers/pcoEntityNames.ts.
use openfaith.Common.{
  ℕ, ◌++◌, List, [], ◌∷◌, reverse, Option, none, some, if◌then◌else◌, find, filter_map, Text, lit,
  ◌===◌, has_code,
}
use openfaith.Store.{ExternalLink, pco_direct}
use openfaith.EdgeDirection.{EdgeDirection, decode}
use openfaith.Relations.{flat_map, group_by}
use openfaith.Schema.{Ast, get_annotation_from_schema, extract_entity_name}
use openfaith.Schema.Relationships.{relationship_annotations}
use openfaith.SyncEngine.{RelationshipInput}
use openfaith.Pco.Client.{PcoEntity, Pco}

abbrev or_value : Text → Option Text → Text
or_value d none = d
or_value d (some s) = s

abbrev name_in : Option Ast → Option Text
name_in none = none
name_in (some ast) = elim (get_annotation_from_schema (λ a. a.of_entity) ast) [
  | none ↦ none
  | some schema ↦ extract_entity_name schema
]

-- `getOfEntityNameForPcoEntityType`
unfoldable pub of_entity_name_for_pco_entity_type : Pco → Text → Text
of_entity_name_for_pco_entity_type p entity_type =
    or_value (p.to_camel entity_type) (name_in (p.schema_of entity_type))

-- A relationship of an entity both of whose ends have a link.
pub record Candidate : Type 0 where
  pub entity : PcoEntity
  pub entity_link : ExternalLink
  pub entity_name : Text
  pub key : Text
  pub target_link : ExternalLink
  pub target_name : Text

-- `externalLinkMap`: the last link of an external id.
unfoldable pub link_of : List ExternalLink → Text → Option ExternalLink
link_of links id = find (λ (l : ExternalLink). l.external_id === id) (reverse links)

abbrev related_link : List ExternalLink → Option (Text × Option Text) → Option ExternalLink
related_link links none = none
related_link links (some (key, none)) = none
related_link links (some (key, some id)) = link_of links id

module _ (links : List ExternalLink) (entity_name : Text) (e : PcoEntity) where
  candidate_for : ExternalLink → Text × Text → Option Candidate
  candidate_for entity_link (key, target_name) =
      elim (related_link links (find (λ (r : Text × Option Text). r.0 === key) e.relationships)) [
        | none ↦ none
        | some target_link ↦ some (record {
          entity = e;
          entity_link = entity_link;
          entity_name = entity_name;
          key = key;
          target_link = target_link;
          target_name = target_name;
        })
      ]

  candidates_of : List (Text × Text) → Option ExternalLink → List Candidate
  candidates_of annotations none = []
  candidates_of annotations (some entity_link) = filter_map (candidate_for entity_link) annotations

-- The candidates among the entities of a type with a schema.
candidates_in : List ExternalLink → Text → List PcoEntity → Option Ast → List Candidate
candidates_in links entity_type es none = []
candidates_in links entity_type es (some ast) =
    flat_map
      (λ (e : PcoEntity).
        candidates_of links (or_value entity_type (name_in (some ast))) e
          (relationship_annotations ast) (link_of links e.id))
      es

-- The type of a relationship between two tags.
unfoldable pub relationship_type : (source_tag key target_tag : Text) → Text
relationship_type source key target =
    if has_code b'_' key
    then source ++ lit "_" ++ key ++ lit "_" ++ target
    else source ++ lit "_has_" ++ target

abbrev date_or : (Text → ℕ) → ℕ → Option Text → ℕ
date_or parse d none = d
date_or parse d (some t) = parse t

-- The relationship of a candidate, in the direction of its edge.
unfoldable pub directed : Pco → Candidate → EdgeDirection → RelationshipInput
directed p c d =
    let source_tag =
      if d.source === c.entity_link.entity_id then c.entity_name else c.target_name in
    let target_tag =
      if d.target === c.target_link.entity_id then c.target_name else c.entity_name in
    record {
      source_entity_id = d.source;
      target_entity_id = d.target;
      source_entity_type_tag = source_tag;
      target_entity_type_tag = target_tag;
      relationship_type = relationship_type source_tag c.key target_tag;
      created_at = p.parse_date c.entity.created_at;
      created_by = none;
      deleted_at = none;
      deleted_by = none;
      updated_at = some (date_or p.parse_date c.entity_link.last_processed_at c.entity.updated_at);
      updated_by = none;
      metadata = some (pco_direct c.key);
    }

-- `decodeUnknownSync` throws where an id is empty.
unfoldable pub relationship_of : Pco → Candidate → Option RelationshipInput
relationship_of p c = elim (decode c.entity_link.entity_id c.target_link.entity_id) [
  | none ↦ none
  | some d ↦ some (directed p c d)
]

abbrev both {ℓ} : {A : Type ℓ} → Option A → Option (List A) → Option (List A)
both (some x) (some xs) = some (x ∷ xs)
both _ _ = none

unfoldable pub relationships_of : Pco → List Candidate → Option (List RelationshipInput)
relationships_of p [] = some []
relationships_of p (c ∷ cs) = both (relationship_of p c) (relationships_of p cs)

unfoldable pub candidates : Pco → List PcoEntity → List ExternalLink → List Candidate
unfolding candidates_in candidates_of candidate_for
candidates p es links =
    flat_map (λ (g : Text × List PcoEntity). candidates_in links g.0 g.1 (p.schema_of g.0))
      (group_by (λ (e : PcoEntity). e.type) es)

-- `extractRelationships`: none is an exception.
unfoldable pub extract_relationships :
    Pco → List PcoEntity → List ExternalLink → Option (List RelationshipInput)
extract_relationships p es links = relationships_of p (candidates p es links)
