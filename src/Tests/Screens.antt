-- ===== src/Tests/Screens.antt =====
-- What the user interface reads of a schema, on concrete data.
use openfaith.Common.{
  true, false, ◌≡◌, refl, List, [], ◌∷◌, any, not, ◌&&◌, none, some, All, Text, lit, ◌===◌,
}
use openfaith.Schema.{
  Value, text, Annotations, Ast, string_keyword, literal, type_literal, union, no_types, type_and,
  no_properties, property_and,
}
use openfaith.Schema.Ui.{ExtractedField, extract_schema_fields, extracted_field}
use openfaith.Schema.Ui.Fields.{in_form, should_hide_field, generate_default_values}
use openfaith.Schema.Ui.Fields.Laws.{
  has_default, is_choice, IsFirstOption, generate_default_values_lem,
}
use openfaith.Schema.Ui.Discovery.{UiEntity, discover_ui_entities}
use openfaith.Schema.Ui.Discovery.Laws.{IsOrdered, is_shown_as, discover_ui_entities_lem}
use openfaith.Tests.Schemas.{no_annotations}

-- A thing has a tag, the status active or closed, and a name.
abbrev status : Ast
unfolding lit
status = union no_annotations (
    type_and (literal no_annotations (text (lit "active")))
      (type_and (literal no_annotations (text (lit "closed"))) no_types))

abbrev thing : Ast
unfolding lit
thing =
    type_literal
      (record no_annotations {
        of_table = some (lit "things");
        of_ui_config = some (record {
          field = none;
          table = none;
          navigation = some (record {
            enabled = true;
            title = lit "Things";
            icon = none;
            url = some (lit "/things");
            module_name = lit "drive";
            order = some 2;
          });
          meta = none;
        });
      })
      (property_and (lit "_tag") no_annotations false (literal no_annotations (text (lit "thing")))
        (property_and (lit "status") no_annotations false status (
          property_and (lit "name") no_annotations false (string_keyword no_annotations)
            no_properties)))

abbrev entities : List (Text × Ast)
unfolding lit
entities = (lit "Status", status) ∷ (lit "Thing", thing) ∷ []

fields_of_thing : List ExtractedField
fields_of_thing = elim (extract_schema_fields thing) [ none ↦ [] | some fields ↦ fields ]

generate_default_values_lem_example :
    (has_default (lit "status") ((lit "status", text (lit "active")) ∷ [])
      ≡ any
          (λ f. not (should_hide_field f in_form) && (f.key === lit "status" && is_choice f))
          fields_of_thing)
    × All (IsFirstOption fields_of_thing) ((lit "status", text (lit "active")) ∷ [])
unfolding fields_of_thing extract_schema_fields generate_default_values thing
    openfaith.Schema.Ui.Fields.add_defaults openfaith.Schema.Ui.Fields.get_visible_fields
    should_hide_field openfaith.Schema.Ui.Fields.get_context_config
    openfaith.Schema.Ui.get_ui_config_from_ast openfaith.Schema.Ui.get_ui_config_option
    openfaith.Schema.Ui.Fields.is_system_field openfaith.Schema.Ui.Fields.system_fields_to_hide
    ◌===◌ openfaith.Schema.Ui.Fields.is_entity_type_field
    openfaith.Schema.Ui.Fields.is_identification_field openfaith.Schema.Ui.is_nullable_schema
    openfaith.Schema.Ui.extract_literal_options
generate_default_values_lem_example =
    generate_default_values_lem thing fields_of_thing ((lit "status", text (lit "active")) ∷ [])
      (lit "status") refl refl

abbrev shown : List UiEntity
unfolding discover_ui_entities
shown = elim (discover_ui_entities entities) [ none ↦ [] | some es ↦ es ]

discover_ui_entities_lem_example :
    IsOrdered shown
    × (any (λ e. e.tag === lit "thing") shown
        ≡ any (λ (s : Text × Ast). is_shown_as (lit "thing") s.1) entities)
unfolding discover_ui_entities openfaith.Schema.Ui.Discovery.ui_entities
    openfaith.Schema.Ui.Discovery.discover_entity_schemas entities
    openfaith.Schema.Ui.Discovery.extract_entity_tag ◌===◌
    openfaith.Schema.get_annotation_from_schema
discover_ui_entities_lem_example = discover_ui_entities_lem entities shown (lit "thing") refl
