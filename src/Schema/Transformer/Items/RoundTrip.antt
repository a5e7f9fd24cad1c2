-- ===== src/Schema/Transformer/Items/RoundTrip.antt =====
-- A field that is decoded and encoded again.
use openfaith.Common.{
  Bool-cases, true, false, ◌≡◌, refl, ap, ◌∙◌, ◌⊎◌, inl, inr, List, [], ◌∷◌, ◌++◌, Option, none,
  some, filter_map, All, Text, lit, ◌===◌, ===-refl,
}
use openfaith.Schema.{Value, Item, Property, FieldType, get_underlying_type, or_else}
use openfaith.Schema.Transformer.Items.{
  OfItem, Shape, get, collect, is_custom, is_skipped, shape_of, decode_field, standard_entry,
  custom_entry, gender_in, gender_out, decode, encode_standard, encode_custom, encode_missing,
  encode,
}
use openfaith.Schema.Transformer.Items.Objects.{
  or_else-none, All-Silent, last_of, get-collect, last_of-collect, entry_at, last_of-filter_map,
  then_map, filter_map-filter_map,
}
use openfaith.Schema.Transformer.Items.Fields.{
  shares, get-map_gender, get-add_defaults, custom_shape-other, standard_shape-other,
  encode_standard-other, encode_missing-other, encode_missing-there, custom_shape_self,
  custom_shape-standard, standard_shape_self, encode_standard_self,
}

abbrev standard_of : Item → Property → Option (Text × Value)
standard_of item g = then_map standard_entry (decode_field item g)

abbrev custom_of : Item → Property → Option (Text × Value)
custom_of item g = then_map encode_custom (then_map custom_entry (decode_field item g))

-- The objects that `encode` makes.
abbrev pub standard_fields : List Property → OfItem → Item
standard_fields fields of = collect [] (filter_map (encode_standard of.rest) fields)

abbrev pub decoded_fields : OfItem → Item
decoded_fields of = collect [] (filter_map encode_custom of.custom_fields)

abbrev pub intermediate : List Property → OfItem → Item
intermediate fields of = collect (standard_fields fields of) (decoded_fields of)

abbrev pub missing_entries : List Property → OfItem → List (Text × Value)
missing_entries fields of =
    filter_map (encode_missing (decoded_fields of) (intermediate fields of)) fields

or_else-some : (o o' : Option Value) (v : Value) → o ≡ some v → or_else o o' ≡ some v
or_else-some o o' v e = rw e refl

pub get-intermediate :
    (fields : List Property) (of : OfItem) (k : Text)
    → get k (intermediate fields of)
      ≡ or_else
          (last_of k (filter_map encode_custom of.custom_fields))
          (last_of k (filter_map (encode_standard of.rest) fields))
unfolding get
get-intermediate fields of k =
    rw
      (
        get-collect k (standard_fields fields of) (decoded_fields of),
        last_of-collect k (filter_map encode_custom of.custom_fields),
        get-collect k [] (filter_map (encode_standard of.rest) fields),
      )
      (ap (or_else (last_of k (filter_map encode_custom of.custom_fields))) (or_else-none _))

-- Where no missing field takes the key, it has what the fields before have.
pub get-encode :
    (fields : List Property) (of : OfItem) (k : Text)
    → (lit "gender" === k) ≡ false
    → last_of k (missing_entries fields of) ≡ none
    → get k (encode fields of) ≡ get k (intermediate fields of)
unfolding encode
get-encode fields of k n m =
    get-map_gender gender_out k _ n
    ∙ rw
        (
          get-collect k (intermediate fields of) (collect [] (missing_entries fields of)),
          last_of-collect k (missing_entries fields of),
          m,
        )
        refl

customs-eq :
    (fields : List Property) (tag : Text) (item : Item)
    → filter_map encode_custom (decode fields tag item).custom_fields
      ≡ filter_map (custom_of item) fields
unfolding decode
customs-eq fields tag item =
    ap (filter_map encode_custom) (filter_map-filter_map (decode_field item) custom_entry fields)
    ∙ filter_map-filter_map (λ g. then_map custom_entry (decode_field item g)) encode_custom fields

-- A field among others of other names.
module _ (xs : List Property) (f : Property) (ys : List Property) (tag : Text) (item : Item)
    (t : FieldType) (v : Value) (n : Text) where
  abbrev fields : List Property
  fields = xs ++ f ∷ ys

  abbrev there : OfItem
  there = decode fields tag item

  -- No other field has the property `P`.
  abbrev Alone : (Property → Type 0) → Type 0
  Alone P = All P xs × All P ys

  alone :
      (P : Property → Type 0) (g : Property → Option (Text × Value)) (k : Text)
      → ((x : Property) → P x → entry_at k (g x) ≡ none)
      → Alone P
      → last_of k (filter_map g fields) ≡ entry_at k (g f)
  alone P g k h (before, after) =
      last_of-filter_map g k xs f ys (All-Silent g k P h xs before) (All-Silent g k P h ys after)

  entry_at_self : (k : Text) → entry_at k (some (k, v)) ≡ some v
  entry_at_self k = rw (===-refl k) refl

  module _ (others : Alone (λ g. (g.name === f.name) ≡ false)) (s : is_skipped f ≡ false)
      (type : get_underlying_type f.type ≡ some t) (name : f.annotations.of_field_name ≡ some n)
      (value : get f.name item ≡ some v) (no_gender : (lit "gender" === f.name) ≡ false) where
    missing-none :
        (is_custom f ≡ false) ⊎ (get f.name (decoded_fields there) ≡ some v)
        → last_of f.name (missing_entries fields there) ≡ none
    missing-none h =
        alone (λ g. (g.name === f.name) ≡ false) _ f.name (λ g. encode_missing-other g _ _ f.name)
          others
        ∙ ap (entry_at f.name)
            (encode_missing-there f (decoded_fields there) (intermediate fields there) v h)

    customs-last :
        last_of f.name (filter_map encode_custom there.custom_fields)
        ≡ entry_at f.name (custom_of item f)
    unfolding decode_field
    customs-last =
        ap (last_of f.name) (customs-eq fields tag item)
        ∙ alone (λ g. (g.name === f.name) ≡ false) (custom_of item) f.name
            (λ g. custom_shape-other g _ _ _ f.name) others

    -- The shape of the field, from what is known of it.
    known :
        {C : Type 0} (h : Option Shape → C)
        → h (decode_field item f) ≡ h (shape_of f (some t) (some v) (some n))
    unfolding decode_field
    known h =
        ap (λ o. h (shape_of f o (get f.name item) f.annotations.of_field_name)) type
        ∙ ap (λ o. h (shape_of f (some t) o f.annotations.of_field_name)) value
        ∙ ap (λ o. h (shape_of f (some t) (some v) o)) name

    kept :
        (is_custom f ≡ false) ⊎ (get f.name (decoded_fields there) ≡ some v)
        → or_else
            (last_of f.name (filter_map encode_custom there.custom_fields))
            (last_of f.name (filter_map (encode_standard there.rest) fields))
          ≡ some v
        → get f.name (encode fields there) ≡ some v
    kept h e =
        get-encode fields there f.name no_gender (missing-none h)
        ∙ get-intermediate fields there f.name
        ∙ e

    custom-kept : is_custom f ≡ true → get f.name (encode fields there) ≡ some v
    unfolding get
    custom-kept c =
        let customs : last_of f.name (filter_map encode_custom there.custom_fields) ≡ some v =
          customs-last
          ∙ known (λ o. entry_at f.name (then_map encode_custom (then_map custom_entry o)))
          ∙ ap (entry_at f.name) (custom_shape_self f t v n s c)
          ∙ entry_at_self f.name in
        kept
          (inr (
            get-collect f.name [] (filter_map encode_custom there.custom_fields)
            ∙ or_else-none _
            ∙ customs))
          (or_else-some _ _ v customs)

    module _ (c : is_custom f ≡ false) (names : Alone (λ g. shares n g ≡ false))
        (named : (lit "gender" === n) ≡ false) where
      standards-last :
          last_of n (filter_map standard_entry (filter_map (decode_field item) fields)) ≡ some v
      unfolding decode_field
      standards-last =
          ap (last_of n) (filter_map-filter_map (decode_field item) standard_entry fields)
          ∙ alone (λ g. shares n g ≡ false) (standard_of item) n
              (λ g. standard_shape-other g _ _ _ n) names
          ∙ known (λ o. entry_at n (then_map standard_entry o))
          ∙ ap (entry_at n) (standard_shape_self f t v n s c)
          ∙ entry_at_self n

      get-rest : get n there.rest ≡ some v
      unfolding decode
      get-rest =
          get-map_gender gender_in n _ named
          ∙ get-add_defaults n v _ (
              get-collect n _ (filter_map standard_entry (filter_map (decode_field item) fields))
              ∙ or_else-some _ _ v standards-last)

      standard-kept : get f.name (encode fields there) ≡ some v
      standard-kept =
          let customs : last_of f.name (filter_map encode_custom there.custom_fields) ≡ none =
            customs-last
            ∙ known (λ o. entry_at f.name (then_map encode_custom (then_map custom_entry o)))
            ∙ ap (entry_at f.name) (custom_shape-standard f t v n s c) in
          let standards : last_of f.name (filter_map (encode_standard there.rest) fields) ≡ some v =
            alone (λ g. (g.name === f.name) ≡ false) (encode_standard there.rest) f.name
              (λ g. encode_standard-other g there.rest f.name) others
            ∙ ap (entry_at f.name) (encode_standard_self f t v n s there.rest c name get-rest)
            ∙ entry_at_self f.name in
          kept (inl c) (rw (customs, standards) refl)

-- Take a field of a schema that is not skipped, whose type is known and which has a canonical name.
-- Suppose that no other field has its name, that no other field but a custom one has its canonical
-- name, and that neither name is gender. If an item has a value for it, then `encode` gives the same
-- value for it, from what `decode` makes of the item. It may be a custom field or not.
pub get-encode-decode :
    (xs : List Property) (f : Property) (ys : List Property) (tag : Text) (item : Item)
    (t : FieldType) (v : Value) (n : Text)
    → All (λ g. (g.name === f.name) ≡ false) xs × All (λ g. (g.name === f.name) ≡ false) ys
    → All (λ g. shares n g ≡ false) xs × All (λ g. shares n g ≡ false) ys
    → is_skipped f ≡ false
    → get_underlying_type f.type ≡ some t
    → f.annotations.of_field_name ≡ some n
    → get f.name item ≡ some v
    → (lit "gender" === f.name) ≡ false
    → (lit "gender" === n) ≡ false
    → get f.name (encode (xs ++ f ∷ ys) (decode (xs ++ f ∷ ys) tag item)) ≡ some v
get-encode-decode xs f ys tag item t v n others names s type name value no_gender named =
    elim (Bool-cases (is_custom f)) [
      | inl c ↦ custom-kept xs f ys tag item t v n others s type name value no_gender c
      | inr c ↦
          standard-kept xs f ys tag item t v n others s type name value no_gender c names named
    ]
