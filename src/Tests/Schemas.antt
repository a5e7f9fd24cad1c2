-- ===== src/Tests/Schemas.antt =====
-- The theorems on schemas, on the example data.
use openfaith.Common.{true, false, ◌≡◌, refl, [], ◌∷◌, none, some, lit, ◌===◌}
use openfaith.Schema.{
  null, text, number, Annotations, Property, string_keyword, number_keyword, literal, union,
  no_types, type_and, number_type, get_underlying_type,
}
use openfaith.Schema.Transformer.{is_nullable_type}
use openfaith.Schema.Transformer.Items.{get, encode, decode}
use openfaith.Schema.Transformer.Items.RoundTrip.{get-encode-decode}
use openfaith.Schema.Transformer.Items.Partial.{get-encode_absent}

abbrev pub no_annotations : Annotations
no_annotations = record {
  of_entity = none;
  of_field_name = none;
  of_custom_field = none;
  of_skip_field = none;
  of_default_value_fn = none;
  of_table = none;
  of_ui_config = none;
  description = none;
}

-- The attributes of a person: a name, a birthdate that may be null, and a custom grade.
abbrev first_name : Property
unfolding lit
first_name = record {
  name = lit "first_name";
  is_optional = false;
  annotations = record no_annotations { of_field_name = some (lit "firstName") };
  type = string_keyword no_annotations;
}

abbrev birthdate : Property
unfolding lit
birthdate = record {
  name = lit "birthdate";
  is_optional = false;
  annotations = record no_annotations { of_field_name = some (lit "birthdate") };
  type =
      union no_annotations (
        type_and (string_keyword no_annotations) (type_and (literal no_annotations null) no_types));
}

abbrev grade : Property
unfolding lit
grade = record {
  name = lit "grade";
  is_optional = false;
  annotations = record no_annotations {
    of_field_name = some (lit "grade");
    of_custom_field = some true;
  };
  type = number_keyword no_annotations;
}

get-encode-decode_example :
    get (lit "grade") (
      encode (first_name ∷ grade ∷ birthdate ∷ []) (
        decode
          (first_name ∷ grade ∷ birthdate ∷ [])
          (lit "person")
          ((lit "grade", number (lit "7")) ∷ (lit "first_name", text (lit "Ann")) ∷ [])))
    ≡ some (number (lit "7"))
unfolding get get_underlying_type lit ◌===◌
get-encode-decode_example =
    get-encode-decode (first_name ∷ []) grade (birthdate ∷ []) (lit "person")
      ((lit "grade", number (lit "7")) ∷ (lit "first_name", text (lit "Ann")) ∷ []) number_type
      (number (lit "7")) (lit "grade") ((refl, tt), (refl, tt)) ((refl, tt), (refl, tt)) refl refl
      refl refl refl refl

get-encode_absent_example :
    get (lit "birthdate") (
      encode
        (first_name ∷ grade ∷ birthdate ∷ [])
        (record { custom_fields = []; rest = (lit "firstName", text (lit "Ann")) ∷ [] }))
    ≡ some null
unfolding get is_nullable_type lit ◌===◌
get-encode_absent_example =
    get-encode_absent (first_name ∷ grade ∷ []) birthdate []
      ((lit "firstName", text (lit "Ann")) ∷ []) (lit "birthdate") ((refl, (refl, tt)), tt) refl
      refl refl refl refl refl
