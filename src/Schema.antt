-- ===== src/Schema.antt =====
-- The schemas that drive the adapters: packages/schema/shared/introspection.ts and
-- packages/schema/shared/schema.ts, over the syntax trees of the effect library.
pub mod Relationships
pub mod Transformer
pub mod Ui
use openfaith.Common.{
  ℕ, Bool, true, false, not, List, [], ◌∷◌, Option, none, some, if◌then◌else◌, any, find, Text, lit,
  ◌===◌, to_lower,
}

-- A value of JSON. A number is its decimal text; arrays and objects are not looked into.
pub data Value : Type 0 where
  null : Value
  text number : Text → Value
  boolean : Bool → Value
  structured : Text → Value

-- An object, as its entries.
abbrev pub Item : Type 0
Item = List (Text × Value)

-- What is read of a schema that is named in an annotation: its title and the name of its constructor.
pub record SchemaName : Type 0 where
  pub title : Option Text
  pub constructor_name : Text

-- The options of a field in a form, or of a column in a table; of them only whether it is hidden.
pub record ContextConfig : Type 0 where
  pub hidden : Option Bool

pub record Navigation : Type 0 where
  pub enabled : Bool
  pub title : Text
  pub icon : Option Text
  pub url : Option Text
  pub module_name : Text
  pub order : Option ℕ

pub record Meta : Type 0 where
  pub disable_create : Option Bool
  pub disable_edit : Option Bool
  pub disable_delete : Option Bool

pub record FieldConfig : Type 0 where
  pub field : Option ContextConfig
  pub table : Option ContextConfig
  pub navigation : Option Navigation
  pub meta : Option Meta

-- The annotations that the adapters and the user interface read.
pub record Annotations : Type 0 where
  pub of_entity : Option SchemaName
  pub of_field_name : Option Text
  pub of_custom_field : Option Bool
  pub of_skip_field : Option Bool
  pub of_default_value_fn : Option (Item → Value)
  pub of_table : Option Text
  pub of_ui_config : Option FieldConfig
  pub description : Option Text

-- `SchemaAST.AST`. Of the surrogate of a transformation only the annotations are read.
mutual
  pub data Ast : Type 0 where
    string_keyword number_keyword boolean_keyword undefined_keyword other_keyword :
        Annotations → Ast
    literal : Annotations → Value → Ast
    type_literal : Annotations → Properties → Ast
    union : Annotations → Types → Ast
    refinement : Annotations → (from : Ast) → Ast
    transformation : (annotations surrogate : Annotations) (from to : Ast) → Ast

  pub data Types : Type 0 where
    no_types : Types
    type_and : Ast → Types → Types

  pub data Properties : Type 0 where
    no_properties : Properties
    property_and :
        (name : Text) → Annotations → (is_optional : Bool) → Ast → Properties → Properties

pub record Property : Type 0 where
  pub name : Text
  pub annotations : Annotations
  pub is_optional : Bool
  pub type : Ast

-- `propertySignatures`
abbrev pub properties : Properties → List Property
properties no_properties = []
properties (property_and name annotations is_optional type rest) =
    record { name = name; annotations = annotations; is_optional = is_optional; type = type }
    ∷ properties rest

abbrev pub property_named : Text → Properties → Option Property
property_named name ps = find (λ (p : Property). p.name === name) (properties ps)

abbrev pub annotations_of : Ast → Annotations
annotations_of (string_keyword a) = a
annotations_of (number_keyword a) = a
annotations_of (boolean_keyword a) = a
annotations_of (undefined_keyword a) = a
annotations_of (other_keyword a) = a
annotations_of (literal a _) = a
annotations_of (type_literal a _) = a
annotations_of (union a _) = a
annotations_of (refinement a _) = a
annotations_of (transformation a _ _ _) = a

abbrev or_else {ℓ} : {A : Type ℓ} → Option A → Option A → Option A
or_else (some a) b = some a
or_else none b = b

-- `getAnnotationFromSchema` of a tree: its own annotation, or that of its surrogate.
unfoldable pub get_annotation_from_schema {ℓ} :
    {A : Type ℓ} → (Annotations → Option A) → Ast → Option A
get_annotation_from_schema annotation (transformation a surrogate from to) =
    or_else (annotation a) (annotation surrogate)
get_annotation_from_schema annotation ast = annotation (annotations_of ast)

abbrev constructor_title : Text → Option Text
constructor_title [] = none
constructor_title (c ∷ s) = some (to_lower (c ∷ s))

-- `extractEntityName`
unfoldable pub extract_entity_name : SchemaName → Option Text
extract_entity_name n = or_else n.title (constructor_title n.constructor_name)

abbrev pub is_null_literal : Ast → Bool
is_null_literal (literal _ null) = true
is_null_literal _ = false

-- `getUnderlyingType`: none is 'unknown'. A union has the type of its first member but null, and
-- without one it is of no type.
pub data FieldType : Type 0 where
  string_type number_type boolean_type : FieldType

abbrev type_of_value : Value → Option FieldType
type_of_value (text _) = some string_type
type_of_value (number _) = some number_type
type_of_value (boolean _) = some boolean_type
type_of_value _ = none

unfoldable mutual
  pub get_underlying_type : Ast → Option FieldType
  get_underlying_type (string_keyword _) = some string_type
  get_underlying_type (number_keyword _) = some number_type
  get_underlying_type (boolean_keyword _) = some boolean_type
  get_underlying_type (undefined_keyword _) = none
  get_underlying_type (other_keyword _) = none
  get_underlying_type (literal _ v) = type_of_value v
  get_underlying_type (type_literal _ _) = none
  get_underlying_type (union _ types) = first_underlying_type types
  get_underlying_type (refinement _ from) = get_underlying_type from
  get_underlying_type (transformation _ _ from to) = get_underlying_type from

  first_underlying_type : Types → Option FieldType
  first_underlying_type no_types = none
  first_underlying_type (type_and t ts) =
      let first = get_underlying_type t in
      let later = first_underlying_type ts in if is_null_literal t then later else first
