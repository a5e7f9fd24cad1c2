-- ===== src/Schema/Ui/Discovery.antt =====
-- Which entities the user interface shows: packages/schema/shared/entityDiscovery.ts, with
-- extractEntityInfo of packages/schema/shared/introspection.ts.
pub mod Laws
use openfaith.Common.{
  ℕ, Bool, true, false, List, [], ◌∷◌, ◌++◌, map, filter_map, find, Option, none, some,
  if◌then◌else◌, leb, Text, lit, ◌===◌, to_lower,
}
use openfaith.Strings.{pluralize}
use openfaith.Schema.{
  Value, text, SchemaName, Navigation, Meta, FieldConfig, Ast, literal, type_literal,
  transformation, Property, property_named, get_annotation_from_schema, extract_entity_name,
}

abbrev literal_text : Ast → Option Text
literal_text (literal _ (text t)) = some t
literal_text _ = none

abbrev tag_text : Option Property → Option Text
tag_text none = none
tag_text (some p) = literal_text p.type

abbrev tag_of_literal : Ast → Option Text
tag_of_literal (type_literal _ ps) = tag_text (property_named (lit "_tag") ps)
tag_of_literal _ = none

-- `extractEntityTagOpt`
unfoldable pub extract_entity_tag : Ast → Option Text
extract_entity_tag (transformation _ _ from to) = tag_of_literal from
extract_entity_tag ast = tag_of_literal ast

pub record EntityInfo : Type 0 where
  pub entity_name : Text
  pub entity_tag : Option Text

abbrev info_of : Option Text → Option Text → EntityInfo
info_of none tag = record { entity_name = lit "item"; entity_tag = tag }
info_of (some []) tag = record { entity_name = lit "item"; entity_tag = tag }
info_of (some (c ∷ name)) tag = record { entity_name = c ∷ name; entity_tag = some (c ∷ name) }

-- `extractEntityInfo`; an empty name is falsy.
unfoldable pub extract_entity_info : SchemaName → Ast → EntityInfo
extract_entity_info name ast = info_of (extract_entity_name name) (extract_entity_tag ast)

-- A schema that is exported, with its tag
pub record EntitySchema : Type 0 where
  pub name : Text
  pub schema : Ast
  pub tag : Text

abbrev entity_schema : Text → Ast → Option Text → Option Text → Option EntitySchema
entity_schema name ast none table = none
entity_schema name ast (some tag) none = none
entity_schema name ast (some tag) (some table) =
    some (record { name = name; schema = ast; tag = tag })

-- `discoverEntitySchemas`, of the schemas that are exported by their names
unfoldable pub discover_entity_schemas : List (Text × Ast) → List EntitySchema
discover_entity_schemas schemas =
    filter_map
      (λ (s : Text × Ast).
        entity_schema s.0 s.1 (extract_entity_tag s.1)
          (get_annotation_from_schema (λ a. a.of_table) s.1))
      schemas

abbrev schema_of : Option EntitySchema → Option Ast
schema_of none = none
schema_of (some e) = some e.schema

-- `getSchemaByEntityType`
unfoldable pub get_schema_by_entity_type : List (Text × Ast) → Text → Option Ast
get_schema_by_entity_type schemas entity_type = schema_of (
    find (λ (e : EntitySchema). to_lower e.tag === to_lower entity_type)
      (discover_entity_schemas schemas))

pub record NavItem : Type 0 where
  pub icon_name : Option Text
  pub title : Text
  pub url : Text

pub record UiMeta : Type 0 where
  pub disable_create : Bool
  pub disable_delete : Bool
  pub disable_edit : Bool

-- `EntityUiConfig`
pub record UiEntity : Type 0 where
  pub schema : Ast
  pub tag : Text
  pub nav_config : Navigation
  pub nav_item : NavItem
  pub meta : UiMeta

abbrev or_false : Option Bool → Bool
or_false none = false
or_false (some b) = b

abbrev meta_with : Option Meta → UiMeta
meta_with none = record { disable_create = false; disable_delete = false; disable_edit = false }
meta_with (some m) = record {
  disable_create = or_false m.disable_create;
  disable_delete = or_false m.disable_delete;
  disable_edit = or_false m.disable_edit;
}

abbrev ui_meta : Option FieldConfig → UiMeta
ui_meta none = meta_with none
ui_meta (some config) = meta_with config.meta

abbrev if_enabled : Option Navigation → Option Navigation
if_enabled none = none
if_enabled (some n) = if n.enabled then some n else none

abbrev enabled_navigation : Option FieldConfig → Option Navigation
enabled_navigation none = none
enabled_navigation (some config) = if_enabled config.navigation

abbrev default_url : Text → Option Text → Option Text
default_url module_name none = none
default_url module_name (some plural) = some (lit "/" ++ module_name ++ lit "/" ++ plural)

-- An empty URL is falsy. None when `pluralize` throws.
abbrev nav_url : (tag : Text) → Navigation → Option Text → Option Text
nav_url tag n none = default_url n.module_name (pluralize (to_lower tag))
nav_url tag n (some []) = default_url n.module_name (pluralize (to_lower tag))
nav_url tag n (some (c ∷ url)) = some (c ∷ url)

abbrev pub ui_entity : EntitySchema → Option FieldConfig → Navigation → Text → UiEntity
ui_entity e config n url = record {
  schema = e.schema;
  tag = e.tag;
  nav_config = n;
  nav_item = record { icon_name = n.icon; title = n.title; url = url };
  meta = ui_meta config;
}

abbrev and_entity : UiEntity → Option (List UiEntity) → Option (List UiEntity)
and_entity e none = none
and_entity e (some entities) = some (e ∷ entities)

abbrev with_url :
    EntitySchema
    → Option FieldConfig
    → Navigation
    → Option Text
    → Option (List UiEntity)
    → Option (List UiEntity)
with_url e config n none rest = none
with_url e config n (some url) rest = and_entity (ui_entity e config n url) rest

abbrev with_navigation :
    EntitySchema
    → Option FieldConfig
    → Option Navigation
    → Option (List UiEntity)
    → Option (List UiEntity)
with_navigation e config none rest = rest
with_navigation e config (some n) rest = with_url e config n (nav_url e.tag n n.url) rest

-- The entities with their navigation; none when it throws.
unfoldable pub ui_entities : List EntitySchema → Option (List UiEntity)
ui_entities [] = some []
ui_entities (e ∷ entities) =
    let config = get_annotation_from_schema (λ a. a.of_ui_config) e.schema in
    with_navigation e config (enabled_navigation config) (ui_entities entities)

abbrev pub order_of : UiEntity → ℕ
order_of e = elim e.nav_config.order [ none ↦ 999 | some n ↦ n ]

-- `Array.sort`, which keeps the order of entities that are equal
unfoldable pub insert_by_order : UiEntity → List UiEntity → List UiEntity
insert_by_order e [] = e ∷ []
insert_by_order e (f ∷ entities) =
    if leb (order_of e) (order_of f) then e ∷ f ∷ entities else f ∷ insert_by_order e entities

unfoldable pub sort_by_order : List UiEntity → List UiEntity
sort_by_order [] = []
sort_by_order (e ∷ entities) = insert_by_order e (sort_by_order entities)

abbrev sorted_entities : Option (List UiEntity) → Option (List UiEntity)
sorted_entities none = none
sorted_entities (some entities) = some (sort_by_order entities)

-- `discoverUiEntities`
unfoldable pub discover_ui_entities : List (Text × Ast) → Option (List UiEntity)
discover_ui_entities schemas = sorted_entities (ui_entities (discover_entity_schemas schemas))
