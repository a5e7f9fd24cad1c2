-- ===== src/Schema/Transformer.antt =====
-- adapters/pco/transformer/pcoTransformer.ts: the fields of a schema, with the annotations that say how
-- they are transformed.
pub mod Items
use openfaith.Common.{
  Bool, true, false, not, ◌&&◌, ◌||◌, List, [], ◌∷◌, ◌++◌, map, Option, none, some, if◌then◌else◌,
  any, find, filter_map, Text, lit, ◌===◌,
}
use openfaith.Schema.{
  Value, null, text, number, boolean, structured, Item, Annotations, Ast, string_keyword,
  number_keyword, boolean_keyword, undefined_keyword, other_keyword, literal, type_literal, union,
  refinement, transformation, Types, no_types, type_and, Properties, Property, properties,
  property_named, annotations_of, or_else, is_null_literal, FieldType, string_type, number_type,
  boolean_type, get_underlying_type,
}

-- `findAnnotationInAST`
unfoldable mutual
  pub find_annotation : {A : Type 0} → (Annotations → Option A) → Ast → Option A
  find_annotation f (union a ts) = or_else (f a) (find_in_types f ts)
  find_annotation f (refinement a from) = or_else (f a) (find_annotation f from)
  find_annotation f (string_keyword a) = f a
  find_annotation f (number_keyword a) = f a
  find_annotation f (boolean_keyword a) = f a
  find_annotation f (undefined_keyword a) = f a
  find_annotation f (other_keyword a) = f a
  find_annotation f (literal a v) = f a
  find_annotation f (type_literal a ps) = f a
  find_annotation f (transformation a surrogate from to) = f a

  find_in_types : {A : Type 0} → (Annotations → Option A) → Types → Option A
  find_in_types f no_types = none
  find_in_types f (type_and t ts) = or_else (find_annotation f t) (find_in_types f ts)

abbrev pub has_null : Types → Bool
has_null no_types = false
has_null (type_and t ts) = is_null_literal t || has_null ts

-- `isNullableType`
unfoldable pub is_nullable_type : Ast → Bool
is_nullable_type (union _ ts) = has_null ts
is_nullable_type (transformation _ _ from to) = is_nullable_type from || is_nullable_type to
is_nullable_type (refinement _ from) = is_nullable_type from
is_nullable_type _ = false

-- `getBaseType`; none is 'unknown'.
unfoldable mutual
  pub get_base_type : Ast → Option FieldType
  get_base_type (string_keyword _) = some string_type
  get_base_type (number_keyword _) = some number_type
  get_base_type (boolean_keyword _) = some boolean_type
  get_base_type (undefined_keyword _) = none
  get_base_type (other_keyword _) = none
  get_base_type (literal _ _) = none
  get_base_type (type_literal _ _) = none
  get_base_type (union _ ts) = first_base_type ts
  get_base_type (refinement _ from) = get_base_type from
  get_base_type (transformation _ _ from to) = get_base_type from

  first_base_type : Types → Option FieldType
  first_base_type no_types = none
  first_base_type (type_and t ts) =
      let here = get_base_type t in
      let later = first_base_type ts in if is_null_literal t then later else or_else here later

abbrev default_of_type : Option FieldType → Value
default_of_type (some boolean_type) = boolean false
default_of_type (some number_type) = number (lit "0")
default_of_type (some string_type) = text []
default_of_type none = null

-- `getDefaultValueForCustomField`, given the type with its merged annotations.
unfoldable pub get_default_value_for_custom_field : Property → Item → Value
get_default_value_for_custom_field f item = elim f.annotations.of_default_value_fn [
  | some fn ↦ fn item
  | none ↦ if is_nullable_type f.type then null else default_of_type (get_base_type f.type)
]

-- `{ ...a, ...b }` of annotations
abbrev merge_annotations : Annotations → Annotations → Annotations
merge_annotations a b = record {
  of_entity = or_else b.of_entity a.of_entity;
  of_field_name = or_else b.of_field_name a.of_field_name;
  of_custom_field = or_else b.of_custom_field a.of_custom_field;
  of_skip_field = or_else b.of_skip_field a.of_skip_field;
  of_default_value_fn = or_else b.of_default_value_fn a.of_default_value_fn;
  of_table = or_else b.of_table a.of_table;
  of_ui_config = or_else b.of_ui_config a.of_ui_config;
  description = or_else b.description a.description;
}

abbrev with_annotations : Property → Property
with_annotations p = record p {
  annotations = merge_annotations (annotations_of p.type) p.annotations;
}

-- The three annotations that are found in nested types come first.
abbrev with_found : Property → Property
with_found p =
    let merged = merge_annotations (annotations_of p.type) p.annotations in
    record p {
      annotations = record merged {
        of_field_name =
            or_else (find_annotation (λ a. a.of_field_name) p.type) merged.of_field_name;
        of_custom_field =
            or_else (find_annotation (λ a. a.of_custom_field) p.type) merged.of_custom_field;
        of_skip_field =
            or_else (find_annotation (λ a. a.of_skip_field) p.type) merged.of_skip_field;
      };
    }

abbrev add_annotations : Property → Option Property → Property
add_annotations p none = p
add_annotations p (some q) = record p {
  annotations = merge_annotations p.annotations q.annotations;
}

abbrev to_side : Ast → Property → Property
to_side (type_literal _ qs) p = add_annotations p (property_named p.name qs)
to_side _ p = p

-- `extractFields`; `fields` are those that the schema itself lists. A field is a name with a type and
-- its annotations.
unfoldable pub extract_fields : Ast → (fields : List Property) → List Property
extract_fields (type_literal _ ps) fields = map with_found (properties ps)
extract_fields (transformation _ _ (type_literal _ ps) to) fields =
    map (λ (p : Property). to_side to (with_annotations p)) (properties ps)
extract_fields _ fields = fields
