-- ===== src/Schema/Transformer/Items.antt =====
-- `pcoToOf` of adapters/pco/transformer/pcoTransformer.ts: the attributes of a Planning Center schema
-- as the fields of a canonical entity and back. No field is annotated with the name customFields.
pub mod Objects
pub mod Fields
pub mod RoundTrip
pub mod Partial
use openfaith.Common.{
  Bool, true, false, not, ◌&&◌, ◌||◌, List, [], ◌∷◌, ◌++◌, map, Option, none, some, if◌then◌else◌,
  filter_map, Text, lit, ◌===◌, ◌==◌,
}
use openfaith.Schema.{
  Value, null, text, number, boolean, structured, Item, Property, FieldType, get_underlying_type,
}
use openfaith.Schema.Transformer.{is_nullable_type, get_default_value_for_custom_field}

-- `mkCustomField`
pub record CustomValue : Type 0 where
  pub type : FieldType
  pub name : Text
  pub source : Option Text
  pub value : Value

-- The canonical entity: its custom fields, and its other fields.
pub record OfItem : Type 0 where
  pub custom_fields : List CustomValue
  pub rest : Item

-- `key in item`, `item[key]`
unfoldable pub get : Text → Item → Option Value
get key [] = none
get key ((k, v) ∷ item) = if k === key then some v else get key item

-- `{ ...item, [key]: value }`
unfoldable pub set : Text → Value → Item → Item
set key value [] = (key, value) ∷ []
set key value ((k, v) ∷ item) = if k === key then (k, value) ∷ item else (k, v) ∷ set key value item

-- Entries that are set one after the other.
unfoldable pub collect : Item → List (Text × Value) → Item
collect item [] = item
collect item ((k, v) ∷ entries) = collect (set k v item) entries

abbrev is_set : Option Bool → Bool
is_set (some true) = true
is_set _ = false

abbrev pub is_custom : Property → Bool
is_custom f = is_set f.annotations.of_custom_field

abbrev pub is_skipped : Property → Bool
is_skipped f = is_set f.annotations.of_skip_field

unfoldable pub pco_prefix : Text
pco_prefix = lit "pco_"

-- `customFields` as an array, as a text of JSON, or as anything else.
pub data CustomFields : Type 0 where
  listed : List CustomValue → CustomFields
  serialized : Text → CustomFields
  other : CustomFields

-- What becomes of one field of an item in `decode`.
pub data Shape : Type 0 where
  standard : (key : Text) → Value → Shape
  custom : CustomValue → Shape

-- A field is left out where its type is unknown, it is to be skipped, it has no value or no name.
pub shape_of : Property → Option FieldType → Option Value → Option Text → Option Shape
shape_of f (some type) (some v) (some name) =
    if is_skipped f
    then none
    else if is_custom f
    then some (
        custom (record {
          type = type;
          name = pco_prefix ++ f.name;
          source = some (lit "pco");
          value = v;
        }))
    else some (standard name v)
shape_of f _ _ _ = none

pub decode_field : Item → Property → Option Shape
decode_field item f =
    shape_of f (get_underlying_type f.type) (get f.name item) f.annotations.of_field_name

pub standard_entry : Shape → Option (Text × Value)
standard_entry (standard key v) = some (key, v)
standard_entry (custom c) = none

pub custom_entry : Shape → Option CustomValue
custom_entry (standard key v) = none
custom_entry (custom c) = some c

abbrev pub default_at : Text → Value → Item → Option Value → Item
default_at key v item none = set key v item
default_at key v item (some _) = item

-- `if (!(key in result)) result[key] = value`
abbrev pub set_default : Text → Value → Item → Item
set_default key v item = default_at key v item (get key item)

abbrev of_gender : Text → Value
of_gender g =
    if g === lit "Male" || g === lit "M"
    then text (lit "male")
    else if g === lit "Female" || g === lit "F"
    then text (lit "female")
    else null

-- The gender of the canonical entity, where that of Planning Center is truthy.
abbrev pub gender_in : Value → Value
gender_in null = null
gender_in (text []) = text []
gender_in (text (c ∷ s)) = of_gender (c ∷ s)
gender_in (number s) = if s === lit "0" then number s else null
gender_in (boolean b) = if b then null else boolean b
gender_in (structured s) = null

abbrev pub gender_out : Value → Value
gender_out (text g) =
    if g === lit "male"
    then text (lit "Male")
    else if g === lit "female"
    then text (lit "Female")
    else text g
gender_out v = v

abbrev pub with_gender : (Value → Value) → Item → Option Value → Item
with_gender f item none = item
with_gender f item (some v) = set (lit "gender") (f v) item

-- The gender of an item that has one, replaced.
abbrev pub map_gender : (Value → Value) → Item → Item
map_gender f item = with_gender f item (get (lit "gender") item)

-- The defaults that every entity gets.
abbrev pub add_defaults : Item → Item
add_defaults item = set_default (lit "status") (text (lit "active")) (
    set_default (lit "type") (text (lit "default"))
      (set_default (lit "tags") (structured (lit "[]")) item))

-- `decode` of `pcoToOf`
unfoldable pub decode : List Property → (tag : Text) → Item → OfItem
unfolding shape_of decode_field standard_entry custom_entry
decode fields tag item =
    let shapes = filter_map (decode_field item) fields in
    record {
      custom_fields = filter_map custom_entry shapes;
      rest =
          map_gender gender_in (
            add_defaults
              (collect ((lit "_tag", text tag) ∷ []) (filter_map standard_entry shapes)));
    }

-- What a standard field is encoded to: its value, or null where there is none and it may be null.
encoded_value : Property → Option Value → Option Value
encoded_value f (some v) = some v
encoded_value f none = if is_nullable_type f.type then some null else none

abbrev pub keyed {ℓ} : {A : Type ℓ} → Text → Option A → Option (Text × A)
keyed key none = none
keyed key (some v) = some (key, v)

pub encode_named : Item → Property → Option Text → Option (Text × Value)
encode_named rest f none = none
encode_named rest f (some name) = keyed f.name (encoded_value f (get name rest))

pub encode_standard : Item → Property → Option (Text × Value)
encode_standard rest f =
    if is_custom f || is_skipped f then none else encode_named rest f f.annotations.of_field_name

-- `name.replace(/^pco_/, '')`
strip : Text → Text → Option Text
strip [] s = some s
strip (c ∷ p) [] = none
strip (c ∷ p) (d ∷ s) = if c == d then strip p s else none

remove_prefix : Text → Option Text → Text
remove_prefix s none = s
remove_prefix s (some t) = t

abbrev is_from : Text → Option Text → Bool
is_from source none = false
is_from source (some s) = s === source

-- The custom fields of other sources are left out.
pub encode_custom : CustomValue → Option (Text × Value)
encode_custom c =
    if is_from (lit "pco") c.source
    then some (remove_prefix c.name (strip pco_prefix c.name), c.value)
    else none

-- A custom field that is not there gets a default.
pub encode_missing : (decoded intermediate : Item) → Property → Option (Text × Value)
encode_missing decoded intermediate f =
    if not (is_custom f) || is_skipped f then none else elim (get f.name decoded) [
      | some _ ↦ none
      | none ↦ some (f.name, get_default_value_for_custom_field f intermediate)
    ]

-- `encode` of `pcoToOf`, given the custom fields as an array
unfoldable pub encode : List Property → OfItem → Item
unfolding encode_standard encode_named encoded_value encode_custom strip remove_prefix
    encode_missing
encode fields of =
    let standard_fields = collect [] (filter_map (encode_standard of.rest) fields) in
    let custom_entries = filter_map encode_custom of.custom_fields in
    let decoded = collect [] custom_entries in
    let intermediate = collect standard_fields decoded in
    let missing = collect [] (filter_map (encode_missing decoded intermediate) fields) in
    map_gender gender_out (collect intermediate missing)

-- The custom fields that `encode` takes an entity to have; `JSON.parse` throws on what is no JSON.
unfoldable pub custom_fields_array :
    (Text → Option (List CustomValue)) → CustomFields → Option (List CustomValue)
custom_fields_array parse (listed cs) = some cs
custom_fields_array parse (serialized s) = parse s
custom_fields_array parse other = some []
