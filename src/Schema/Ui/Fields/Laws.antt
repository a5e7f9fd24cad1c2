-- ===== src/Schema/Ui/Fields/Laws.antt =====
-- Which fields get a default value: packages/schema/shared/defaultValues.ts.
use openfaith.Common.{
  ◌≡◌, refl, ap, sym, ◌∙◌, arith, Bool, true, false, not, ◌&&◌, ◌||◌, List, [], ◌∷◌, any,
  any-filter, filter, Option, none, some, head?, Text, ◌===◌, All, All-filter, Memᴰ, Bool-cases,
  inl, inr,
}
use openfaith.Schema.{Value, Ast}
use openfaith.Schema.Ui.{
  ExtractedField, extract_schema_fields, LiteralOption, extract_literal_options,
}
use openfaith.Schema.Ui.Fields.{
  in_form, should_hide_field, get_visible_fields, with_option, add_default, add_defaults,
  defaults_of, generate_default_values,
}

-- Some value has the key.
abbrev pub has_default : Text → List (Text × Value) → Bool
has_default key defaults = any (λ (d : Text × Value). d.0 === key) defaults

abbrev is_some : Option LiteralOption → Bool
is_some none = false
is_some (some o) = true

-- A field that must be filled in, with a value out of a list
abbrev pub is_choice : ExtractedField → Bool
is_choice f =
    not f.is_optional
    && not f.is_nullable
    && is_some (head? (extract_literal_options f.schema.type))

-- The value is the first option of a field with the key.
pub record IsFirstOption (fields : List ExtractedField) (d : Text × Value) : Type 0 where
  pub field : ExtractedField
  pub option : LiteralOption
  pub in_fields : Memᴰ field fields
  pub has_key : field.key ≡ d.0
  pub is_first : head? (extract_literal_options field.schema.type) ≡ some option
  pub has_value : option.value ≡ d.1

has_default-option :
    (key k : Text) (o : Option LiteralOption) (defaults : List (Text × Value))
    → has_default key (with_option k o defaults)
      ≡ (k === key && is_some o || has_default key defaults)
has_default-option key k none defaults = ground arith
has_default-option key k (some o) defaults = ground arith

has_default-add :
    (key : Text) (f : ExtractedField) (defaults : List (Text × Value))
    → has_default key (add_default f defaults)
      ≡ (f.key === key && is_choice f || has_default key defaults)
has_default-add key f defaults =
    ground
      (arith, has_default-option key f.key (head? (extract_literal_options f.schema.type)) defaults)

has_default-add_defaults :
    (key : Text) (fields : List ExtractedField) (defaults : List (Text × Value))
    → has_default key (add_defaults fields defaults)
      ≡ (any (λ f. f.key === key && is_choice f) fields || has_default key defaults)
unfolding add_defaults
has_default-add_defaults key [] defaults = refl
has_default-add_defaults key (f ∷ fields) defaults =
    has_default-add_defaults key fields (add_default f defaults)
    ∙ ground (arith, has_default-add key f defaults)

module _ (P : Text × Value → Type 0) where
  -- Each option that the field offers first has the property.
  abbrev Offers : ExtractedField → Type 0
  Offers f =
      (o : LiteralOption)
      → head? (extract_literal_options f.schema.type) ≡ some o
      → P (f.key, o.value)

  with_option-All :
      (k : Text) (first o : Option LiteralOption) (defaults : List (Text × Value))
      → first ≡ o
      → ((x : LiteralOption) → first ≡ some x → P (k, x.value))
      → All P defaults
      → All P (with_option k o defaults)
  with_option-All k first none defaults e h hs = hs
  with_option-All k first (some o) defaults e h hs = (h o e, hs)

  add_default-All :
      (f : ExtractedField) (defaults : List (Text × Value))
      → Offers f
      → All P defaults
      → All P (add_default f defaults)
  add_default-All f defaults h hs = elim (Bool-cases (f.is_optional || f.is_nullable)) [
    | inl e ↦ rw e hs
    | inr e ↦
        rw e (
          with_option-All f.key _ (head? (extract_literal_options f.schema.type)) defaults refl h
            hs)
  ]

  add_defaults-All :
      (fields : List ExtractedField) (defaults : List (Text × Value))
      → All Offers fields
      → All P defaults
      → All P (add_defaults fields defaults)
  unfolding add_defaults
  add_defaults-All [] defaults h hs = hs
  add_defaults-All (f ∷ fields) defaults (h, rest) hs =
      add_defaults-All fields (add_default f defaults) rest (add_default-All f defaults h hs)

All-Offers :
    (all fields : List ExtractedField)
    → ((f : ExtractedField) → Memᴰ f fields → Memᴰ f all)
    → All (Offers (IsFirstOption all)) fields
All-Offers all [] m = tt
All-Offers all (f ∷ fields) m = (
  λ o e. record {
    field = f;
    option = o;
    in_fields = m f (Memᴰ.head refl);
    has_key = refl;
    is_first = e;
    has_value = refl;
  },
  All-Offers all fields (λ g n. m g (Memᴰ.tail n)),
)

some_injective : {a b : List (Text × Value)} → some a ≡ some b → a ≡ b
some_injective e = cc

-- Suppose that the fields of a schema can be read and that its default values are made. A key has a
-- default value exactly when a field with the key is not hidden in a form, is neither optional nor
-- nullable, and takes one of some literals; and each default value is the first literal of a field with
-- its key.
pub generate_default_values_lem :
    (ast : Ast) (fields : List ExtractedField) (defaults : List (Text × Value)) (key : Text)
    → extract_schema_fields ast ≡ some fields
    → generate_default_values ast ≡ some defaults
    → (has_default key defaults
        ≡ any (λ f. not (should_hide_field f in_form) && (f.key === key && is_choice f)) fields)
      × All (IsFirstOption fields) defaults
unfolding generate_default_values get_visible_fields
generate_default_values_lem ast fields defaults key e h =
    let shown = filter (λ f. not (should_hide_field f in_form)) fields in
    let d = some_injective (sym (ap defaults_of e) ∙ h) in
    (
      ap (has_default key) (sym d)
          ∙ has_default-add_defaults key shown []
          ∙ ground (
            arith,
            any-filter (λ f. not (should_hide_field f in_form)) (λ f. f.key === key && is_choice f)
                fields,
          ),
      rw (← d) (
          add_defaults-All (IsFirstOption fields) shown []
            (All-filter (Offers (IsFirstOption fields)) (λ f. not (should_hide_field f in_form))
              fields (All-Offers fields fields (λ f m. m)))
            tt),
    )
