-- ===== src/Schema/Transformer/Items/Partial.antt =====
-- What `encode` makes of the fields that an entity does not have.
use openfaith.Common.{
  true, false, ◌≡◌, refl, ap, ◌∙◌, inl, List, [], ◌∷◌, ◌++◌, some, none, All, Text, lit, ◌===◌,
  ===-refl,
}
use openfaith.Schema.{null, Item, Property}
use openfaith.Schema.Transformer.{is_nullable_type}
use openfaith.Schema.Transformer.Items.{
  OfItem, get, is_custom, is_skipped, encode_standard, encode_missing, encode,
}
use openfaith.Schema.Transformer.Items.Objects.{All-Silent, entry_at, last_of-filter_map}
use openfaith.Schema.Transformer.Items.Fields.{
  encode_standard-other, encode_standard-absent, encode_missing-other, encode_missing-there,
}
use openfaith.Schema.Transformer.Items.RoundTrip.{
  decoded_fields, intermediate, get-intermediate, get-encode,
}

-- Take a field of a schema that is no custom field, not skipped, of a canonical name and of a type with
-- null, whose name no other field has and is not gender. If an entity without custom fields does not
-- have the field, then `encode` gives it the value null.
pub get-encode_absent :
    (xs : List Property) (f : Property) (ys : List Property) (rest : Item) (n : Text)
    → All (λ g. (g.name === f.name) ≡ false) xs × All (λ g. (g.name === f.name) ≡ false) ys
    → is_custom f ≡ false
    → is_skipped f ≡ false
    → f.annotations.of_field_name ≡ some n
    → is_nullable_type f.type ≡ true
    → get n rest ≡ none
    → (lit "gender" === f.name) ≡ false
    → get f.name (encode (xs ++ f ∷ ys) (record { custom_fields = []; rest = rest })) ≡ some null
get-encode_absent xs f ys rest n (before, after) c s name nullable absent no_gender =
    let of : OfItem = record { custom_fields = []; rest = rest } in
    let missing = encode_missing (decoded_fields of) (intermediate (xs ++ f ∷ ys) of) in
    let silent = λ (zs : List Property).
      All-Silent missing f.name (λ g. (g.name === f.name) ≡ false)
        (λ g. encode_missing-other g _ _ f.name) zs in
    let silent' = λ (zs : List Property).
      All-Silent (encode_standard rest) f.name (λ g. (g.name === f.name) ≡ false)
        (λ g. encode_standard-other g rest f.name) zs in
    get-encode (xs ++ f ∷ ys) of f.name no_gender (
      last_of-filter_map missing f.name xs f ys (silent xs before) (silent ys after)
      ∙ ap (entry_at f.name) (encode_missing-there f _ _ null (inl c)))
    ∙ get-intermediate (xs ++ f ∷ ys) of f.name
    ∙ last_of-filter_map (encode_standard rest) f.name xs f ys (silent' xs before)
        (silent' ys after)
    ∙ ap (entry_at f.name) (encode_standard-absent f rest n s c name absent nullable)
    ∙ rw (===-refl f.name) refl
