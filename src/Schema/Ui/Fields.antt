-- ===== src/Schema/Ui/Fields.antt =====
-- Which fields the user interface shows, and what it puts into them: packages/schema/shared/filtering.ts
-- and defaultValues.ts.
pub mod Laws
use openfaith.Common.{
  Bool, true, false, not, ◌&&◌, ◌||◌, List, [], ◌∷◌, any, filter, Option, none, some, if◌then◌else◌,
  head?, map, Text, lit, ◌===◌,
}
use openfaith.Schema.{Value, ContextConfig, FieldConfig, Ast, Property}
use openfaith.Schema.Ui.{
  ExtractedField, extract_schema_fields, get_ui_config_from_ast, property_annotation, LiteralOption,
  extract_literal_options,
}

pub data Context : Type 0 where
  in_table in_form : Context

abbrev is_one_of : List Text → Text → Bool
is_one_of names key = any (λ n. n === key) names

-- `SYSTEM_FIELDS_TO_HIDE`
unfoldable pub system_fields_to_hide : List Text
system_fields_to_hide =
    lit "createdBy"
    ∷ lit "updatedBy"
    ∷ lit "deletedAt"
    ∷ lit "deletedBy"
    ∷ lit "inactivatedAt"
    ∷ lit "inactivatedBy"
    ∷ lit "customFields"
    ∷ lit "tags"
    ∷ []

unfoldable pub is_system_field : Text → Bool
is_system_field key = is_one_of system_fields_to_hide key

unfoldable pub is_entity_type_field : Text → Bool
is_entity_type_field key = is_one_of (lit "_tag" ∷ lit "type" ∷ []) key

unfoldable pub is_identification_field : Text → Bool
is_identification_field key = is_one_of (lit "id" ∷ lit "orgId" ∷ lit "externalIds" ∷ []) key

unfoldable pub is_prefix : Text → Text → Bool
is_prefix [] t = true
is_prefix (c ∷ w) [] = false
is_prefix (c ∷ w) (d ∷ t) = (c ∷ []) === (d ∷ []) && is_prefix w t

-- `t.includes(w)`
unfoldable pub includes : (w t : Text) → Bool
includes w [] = is_prefix w []
includes w (c ∷ t) = is_prefix w (c ∷ t) || includes w t

abbrev config_in : Context → Option FieldConfig → Option ContextConfig
config_in context none = none
config_in in_table (some config) = config.table
config_in in_form (some config) = config.field

-- `getContextConfig`
unfoldable pub get_context_config : ExtractedField → Context → Option ContextConfig
get_context_config f context = config_in context (get_ui_config_from_ast f.schema)

abbrev is_hidden : Option ContextConfig → Bool
is_hidden none = false
is_hidden (some config) = elim config.hidden [ none ↦ false | some b ↦ b ]

abbrev is_internal : Option Text → Bool
is_internal none = false
is_internal (some d) = includes (lit "typeid") d || includes (lit "external ids") d

-- `shouldHideField`
unfoldable pub should_hide_field : ExtractedField → Context → Bool
should_hide_field f context =
    is_hidden (get_context_config f context)
    || is_system_field f.key
    || is_entity_type_field f.key
    || is_identification_field f.key
      && is_internal (property_annotation (λ a. a.description) f.schema)

-- `getVisibleFields`
unfoldable pub get_visible_fields : List ExtractedField → Context → List ExtractedField
get_visible_fields fields context = filter (λ f. not (should_hide_field f context)) fields

abbrev with_option : Text → Option LiteralOption → List (Text × Value) → List (Text × Value)
with_option key none defaults = defaults
with_option key (some o) defaults = (key, o.value) ∷ defaults

-- The default of one field is added. Of two entries with one key the first counts.
abbrev add_default : ExtractedField → List (Text × Value) → List (Text × Value)
add_default f defaults =
    if f.is_optional || f.is_nullable
    then defaults
    else with_option f.key (head? (extract_literal_options f.schema.type)) defaults

unfoldable pub add_defaults : List ExtractedField → List (Text × Value) → List (Text × Value)
add_defaults [] defaults = defaults
add_defaults (f ∷ fields) defaults = add_defaults fields (add_default f defaults)

abbrev defaults_of : Option (List ExtractedField) → Option (List (Text × Value))
defaults_of none = none
defaults_of (some fields) = some (add_defaults (get_visible_fields fields in_form) [])

-- `generateDefaultValues`; none when it throws.
unfoldable pub generate_default_values : Ast → Option (List (Text × Value))
generate_default_values ast = defaults_of (extract_schema_fields ast)
