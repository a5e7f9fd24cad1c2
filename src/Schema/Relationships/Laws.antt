-- ===== src/Schema/Relationships/Laws.antt =====
-- The two readings of the relationships of a schema, compared.
use openfaith.Common.{
  ◌≡◌, refl, ◌∙◌, ◌⊎◌, inl, inr, [], ◌∷◌, Memᴰ, Option, none, some, filter_map-mono, Text, lit,
}
use openfaith.Schema.{
  SchemaName, Ast, type_literal, union, Property, properties, property_named,
  get_annotation_from_schema, extract_entity_name,
}
use openfaith.Schema.Relationships.{
  data_type, literal_type, extract_from_data_type, from_structure, keyed, discovered_target,
  discovered, entries_in, in_relationships, discover_relationships, title_or_unknown,
  annotated_target, annotated, relationship_annotations,
}

-- What the reading of a data type finds, where there is no union, the other finds.
literal_type_mono :
    (type : Ast) (t : Text) → literal_type type ≡ some t → extract_from_data_type type ≡ some t
unfolding literal_type extract_from_data_type
literal_type_mono (union a ts) t e = cc
literal_type_mono type t e = e

data_type_mono :
    (p : Option Property) (t : Text)
    → data_type literal_type p ≡ some t
    → data_type extract_from_data_type p ≡ some t
data_type_mono none t e = e
data_type_mono (some p) t e = literal_type_mono p.type t e

from_structure_mono :
    (type : Ast) (t : Text)
    → from_structure literal_type type ≡ some t
    → from_structure extract_from_data_type type ≡ some t
unfolding from_structure
from_structure_mono (type_literal a ps) t e = data_type_mono (property_named (lit "data") ps) t e
from_structure_mono type t e = e

-- The name of a schema is the title that is read, unless there is none.
abbrev pub IsUnknown : Text × Text → Type 0
IsUnknown r = r.1 ≡ lit "unknown"

abbrev named : Option Text → Text → SchemaName
named t c = record { title = t; constructor_name = c }

title_or_unknown-cases :
    (t : Option Text) (c : Text)
    → (title_or_unknown (named t c) ≡ lit "unknown")
      ⊎ (extract_entity_name (named t c) ≡ some (title_or_unknown (named t c)))
unfolding extract_entity_name
title_or_unknown-cases (some t) c = inr refl
title_or_unknown-cases none [] = inl refl
title_or_unknown-cases none (c ∷ s) = inr refl

keyed_target :
    (key : Text) (o : Option Text) (r : Text × Text)
    → keyed key o ≡ some r
    → (o ≡ some r.1) × (r ≡ (key, r.1))
keyed_target key none r e = cc
keyed_target key (some t) r e = rw (← some_injective e) (refl, refl)
  where
    some_injective : {a b : Text × Text} → some a ≡ some b → a ≡ b
    some_injective e = cc

target_mono :
    (type : Ast) (schema : Option SchemaName) (t : Text)
    → annotated_target type schema ≡ some t
    → (t ≡ lit "unknown") ⊎ (discovered_target type schema ≡ some t)
unfolding annotated_target discovered_target
target_mono type none t e = inr (from_structure_mono type t e)
target_mono type (some n) t e = elim (title_or_unknown-cases n.title n.constructor_name) [
  | inl q ↦ inl (same e q)
  | inr q ↦ inr (q ∙ e)
]
  where
    same : {a b c : Text} → some a ≡ some b → a ≡ c → b ≡ c
    same e q = cc

discovered_mono :
    (p : Property) (r : Text × Text) → annotated p ≡ some r → IsUnknown r ⊎ (discovered p ≡ some r)
discovered_mono p r e =
    let schema = get_annotation_from_schema (λ a. a.of_entity) p.type in
    let (t, k) = keyed_target p.name (annotated_target p.type schema) r e in
    elim (target_mono p.type schema r.1 t) [ inl q ↦ inl q | inr q ↦ inr (rw (q, ← k) refl) ]

not_in_nil : {C : Type 0} (r : Text × Text) → Memᴰ r [] → C
not_in_nil r m = elim m [ ]

entries_in_mono :
    (ast : Ast) (r : Text × Text)
    → Memᴰ r (entries_in annotated ast)
    → IsUnknown r ⊎ Memᴰ r (entries_in discovered ast)
entries_in_mono (type_literal a ps) r m =
    filter_map-mono IsUnknown annotated discovered discovered_mono (properties ps) r m
entries_in_mono ast r m = not_in_nil r m

in_relationships_mono :
    (field : Option Property) (r : Text × Text)
    → Memᴰ r (in_relationships annotated field)
    → IsUnknown r ⊎ Memᴰ r (in_relationships discovered field)
in_relationships_mono none r m = inr m
in_relationships_mono (some field) r m = entries_in_mono field.type r m

-- A relationship that `extractRelationships` reads from a schema is one that
-- `discoverPcoRelationships` finds in it, with the same target, unless the target is 'unknown'.
pub discover_relationships-annotated :
    (ast : Ast) (r : Text × Text)
    → Memᴰ r (relationship_annotations ast)
    → IsUnknown r ⊎ Memᴰ r (discover_relationships ast)
unfolding relationship_annotations discover_relationships
discover_relationships-annotated (type_literal a ps) r m =
    in_relationships_mono (property_named (lit "relationships") ps) r m
discover_relationships-annotated ast r m = not_in_nil r m
