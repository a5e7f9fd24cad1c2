-- ===== src/Schema/Ui.antt =====
-- What the user interface reads of a schema: packages/schema/shared/introspection.ts, filtering.ts and
-- defaultValues.ts.
pub mod Discovery
pub mod Fields
use openfaith.Common.{
  Bool, true, false, not, ◌&&◌, ◌||◌, List, [], ◌∷◌, ◌++◌, map, filter, any, filter_map, Option,
  none, some, if◌then◌else◌, head?, Text, lit, ◌===◌,
}
use openfaith.Strings.{capitalize}
use openfaith.Schema.{
  Value, null, text, number, boolean, structured, SchemaName, ContextConfig, FieldConfig,
  Annotations, Ast, undefined_keyword, literal, type_literal, union, transformation, Types,
  no_types, type_and, Properties, Property, properties, property_named, annotations_of, or_else,
  is_null_literal, get_annotation_from_schema, extract_entity_name,
}
use openfaith.Schema.Transformer.{has_null}

-- `isNullableSchema`
unfoldable pub is_nullable_schema : Ast → Bool
is_nullable_schema (union _ types) = has_null types
is_nullable_schema _ = false

pub record ExtractedField : Type 0 where
  pub key : Text
  pub schema : Property
  pub is_optional : Bool
  pub is_nullable : Bool

abbrev pub extracted_field : Property → ExtractedField
extracted_field p = record {
  key = p.name;
  schema = p;
  is_optional = p.is_optional;
  is_nullable = is_nullable_schema p.type;
}

-- `extractFromTypeLiteral`; none when it throws.
abbrev from_type_literal : Ast → Option (List ExtractedField)
from_type_literal (type_literal _ ps) = some (map extracted_field (properties ps))
from_type_literal _ = none

-- `extractSchemaFields`
unfoldable pub extract_schema_fields : Ast → Option (List ExtractedField)
extract_schema_fields (type_literal a ps) = from_type_literal (type_literal a ps)
extract_schema_fields (transformation _ _ from to) = from_type_literal from
extract_schema_fields _ = none

abbrev pub is_null_or_undefined : Ast → Bool
is_null_or_undefined (literal _ null) = true
is_null_or_undefined (undefined_keyword _) = true
is_null_or_undefined _ = false

-- `getUiConfigFromASTOption`, which `getUiConfigFromAST` is for a syntax tree: the annotation, or for a
-- union that of its first member that is neither null nor undefined.
unfoldable mutual
  pub get_ui_config_option : Ast → Option FieldConfig
  get_ui_config_option (union a types) = or_else a.of_ui_config (first_ui_config types)
  get_ui_config_option (transformation a surrogate _ _) =
      or_else a.of_ui_config surrogate.of_ui_config
  get_ui_config_option ast = (annotations_of ast).of_ui_config

  first_ui_config : Types → Option FieldConfig
  first_ui_config no_types = none
  first_ui_config (type_and t ts) =
      let here = get_ui_config_option t in
      let later = first_ui_config ts in if is_null_or_undefined t then later else here

-- `getAnnotationFromSchema` of a property: its own annotation, or that of its type itself.
abbrev pub property_annotation {ℓ} : {A : Type ℓ} → (Annotations → Option A) → Property → Option A
property_annotation annotation p =
    or_else (annotation p.annotations) (annotation (annotations_of p.type))

-- `getUiConfigFromAST` of a property
unfoldable pub get_ui_config_from_ast : Property → Option FieldConfig
get_ui_config_from_ast p =
    or_else (property_annotation (λ a. a.of_ui_config) p) (get_ui_config_option p.type)

-- An entry of `extractLiteralOptions`
pub record LiteralOption : Type 0 where
  pub value : Value
  pub label : Text

-- The option of a literal; null is none.
abbrev literal_option : Ast → Option LiteralOption
literal_option (literal _ (text t)) = some (record { value = text t; label = capitalize t })
literal_option (literal _ (number n)) = some (record { value = number n; label = n })
literal_option (literal _ (boolean true)) =
    some (record { value = boolean true; label = lit "true" })
literal_option (literal _ (boolean false)) =
    some (record { value = boolean false; label = lit "false" })
literal_option _ = none

abbrev literal_options : Types → List LiteralOption
literal_options no_types = []
literal_options (type_and t ts) = elim (literal_option t) [
  | none ↦ literal_options ts
  | some o ↦ o ∷ literal_options ts
]

abbrev one_option : Option LiteralOption → List LiteralOption
one_option none = []
one_option (some o) = o ∷ []

-- `extractLiteralOptions`
unfoldable pub extract_literal_options : Ast → List LiteralOption
extract_literal_options (union _ types) = literal_options types
extract_literal_options ast = one_option (literal_option ast)
