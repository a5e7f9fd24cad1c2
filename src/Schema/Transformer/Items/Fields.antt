-- ===== src/Schema/Transformer/Items/Fields.antt =====
-- What a field of a schema gives in `decode` and `encode`, and what the others leave alone.
use openfaith.Common.{
  Bool, true, false, not, ◌&&◌, ◌||◌, ◌≡◌, refl, ◌⊎◌, inl, inr, ◌++◌, Option, none, some,
  Bool-cases, Option-cases, arith, Text, lit, ◌===◌, ===_iff,
}
use openfaith.Schema.Transformer.{is_nullable_type}
use openfaith.Schema.{Value, null, Item, Property, FieldType}
use openfaith.Schema.Transformer.Items.{
  get, is_custom, is_skipped, pco_prefix, shape_of, standard_entry, custom_entry, default_at,
  add_defaults, with_gender, map_gender, encoded_value, keyed, encode_named, encode_standard, strip,
  remove_prefix, encode_custom, encode_missing,
}
use openfaith.Schema.Transformer.Items.Objects.{get-set, entry_at, then_map}

-- Only the gender of an item is mapped.
get-with_gender :
    (h : Value → Value) (k : Text) (item : Item) (o : Option Value)
    → (lit "gender" === k) ≡ false
    → get k (with_gender h item o) ≡ get k item
get-with_gender h k item none n = refl
get-with_gender h k item (some v) n = rw (get-set k (lit "gender") (h v) item, n) refl

pub get-map_gender :
    (h : Value → Value) (k : Text) (item : Item)
    → (lit "gender" === k) ≡ false
    → get k (map_gender h item) ≡ get k item
get-map_gender h k item n = get-with_gender h k item (get (lit "gender") item) n

-- A default does not replace what is there.
get-default_at :
    (k key : Text) (v w : Value) (item : Item) (o : Option Value)
    → get key item ≡ o
    → get k item ≡ some v
    → get k (default_at key w item o) ≡ some v
get-default_at k key v w item (some x) q e = e
get-default_at k key v w item none q e = elim (Bool-cases (key === k)) [
  | inl b ↦ absurd (missing ((===_iff key k).0 b))
  | inr b ↦ rw (get-set k key w item, b) e
]
  where
    missing : key ≡ k → ⊥
    missing b = cc

pub get-add_defaults :
    (k : Text) (v : Value) (item : Item) → get k item ≡ some v → get k (add_defaults item) ≡ some v
get-add_defaults k v item e =
    get-default_at k _ v _ _ _ refl
      (get-default_at k _ v _ _ _ refl (get-default_at k _ v _ _ _ refl e))

-- The name of a custom field without its prefix.
unprefixed : (s : Text) → remove_prefix (pco_prefix ++ s) (strip pco_prefix (pco_prefix ++ s)) ≡ s
unfolding pco_prefix lit strip remove_prefix
unprefixed s = refl

abbrev pub is_named : Text → Option Text → Bool
is_named k none = false
is_named k (some n) = n === k

-- A standard field of the canonical name `k`.
abbrev pub shares : Text → Property → Bool
shares k g = not (is_custom g) && is_named k g.annotations.of_field_name

module _ (g : Property) where
  pub custom_shape-other :
      (t : Option FieldType) (v : Option Value) (n : Option Text) (k : Text)
      → (g.name === k) ≡ false
      → entry_at k (then_map encode_custom (then_map custom_entry (shape_of g t v n))) ≡ none
  unfolding shape_of custom_entry encode_custom lit ◌===◌
  custom_shape-other (some t) (some v) (some n) k e = elim (Bool-cases (is_skipped g)) [
    | inl s ↦ rw s refl
    | inr s ↦ elim (Bool-cases (is_custom g)) [
      | inl c ↦ rw (s, c) (rw (unprefixed g.name, e) refl)
      | inr c ↦ rw (s, c) refl
    ]
  ]
  custom_shape-other none v n k e = refl
  custom_shape-other (some t) none n k e = refl
  custom_shape-other (some t) (some v) none k e = refl

  pub standard_shape-other :
      (t : Option FieldType) (v : Option Value) (n : Option Text) (k : Text)
      → (not (is_custom g) && is_named k n) ≡ false
      → entry_at k (then_map standard_entry (shape_of g t v n)) ≡ none
  unfolding shape_of standard_entry
  standard_shape-other (some t) (some v) (some n) k e = elim (Bool-cases (is_skipped g)) [
    | inl s ↦ rw s refl
    | inr s ↦ elim (Bool-cases (is_custom g)) [
      | inl c ↦ rw (s, c) refl
      | inr c ↦ rw (s, c) (rw (named c) refl)
    ]
  ]
    where
      named : is_custom g ≡ false → (n === k) ≡ false
      named c = ground arith
  standard_shape-other none v n k e = refl
  standard_shape-other (some t) none n k e = refl
  standard_shape-other (some t) (some v) none k e = refl

  encode_named-other :
      (rest : Item) (n : Option Text) (k : Text)
      → (g.name === k) ≡ false
      → entry_at k (encode_named rest g n) ≡ none
  unfolding encode_named
  encode_named-other rest none k e = refl
  encode_named-other rest (some n) k e = keyed-other (encoded_value g (get n rest))
    where
      keyed-other : (o : Option Value) → entry_at k (keyed g.name o) ≡ none
      keyed-other none = refl
      keyed-other (some v) = rw e refl

  pub encode_standard-other :
      (rest : Item) (k : Text) → (g.name === k) ≡ false → entry_at k (encode_standard rest g) ≡ none
  unfolding encode_standard
  encode_standard-other rest k e = elim (Bool-cases (is_custom g || is_skipped g)) [
    | inl s ↦ rw s refl
    | inr s ↦ rw s (encode_named-other rest g.annotations.of_field_name k e)
  ]

  pub encode_missing-other :
      (decoded intermediate : Item) (k : Text)
      → (g.name === k) ≡ false
      → entry_at k (encode_missing decoded intermediate g) ≡ none
  unfolding encode_missing
  encode_missing-other decoded intermediate k e =
      elim (Bool-cases (not (is_custom g) || is_skipped g)) [
        | inl s ↦ rw s refl
        | inr s ↦ elim (Option-cases (get g.name decoded)) [
          | inl q ↦ rw (s, q) (rw e refl)
          | inr (v, q) ↦ rw (s, q) refl
        ]
      ]

  pub encode_missing-there :
      (decoded intermediate : Item) (v : Value)
      → (is_custom g ≡ false) ⊎ (get g.name decoded ≡ some v)
      → encode_missing decoded intermediate g ≡ none
  unfolding encode_missing
  encode_missing-there decoded intermediate v (inl c) = rw c refl
  encode_missing-there decoded intermediate v (inr q) =
      elim (Bool-cases (not (is_custom g) || is_skipped g)) [
        | inl s ↦ rw s refl
        | inr s ↦ rw (s, q) refl
      ]

  pub encode_standard-absent :
      (rest : Item) (n : Text)
      → is_skipped g ≡ false
      → is_custom g ≡ false
      → g.annotations.of_field_name ≡ some n
      → get n rest ≡ none
      → is_nullable_type g.type ≡ true
      → encode_standard rest g ≡ some (g.name, null)
  unfolding encode_standard encode_named encoded_value
  encode_standard-absent rest n s c name e nullable = rw (s, c, name) (rw e (rw nullable refl))

  -- What a field gives that is not skipped.
  module _ (t : FieldType) (v : Value) (n : Text) (s : is_skipped g ≡ false) where
    pub custom_shape_self :
        is_custom g ≡ true
        → then_map encode_custom (then_map custom_entry (shape_of g (some t) (some v) (some n)))
          ≡ some (g.name, v)
    unfolding shape_of custom_entry encode_custom lit ◌===◌
    custom_shape_self c = rw (s, c) (rw (unprefixed g.name) refl)

    pub custom_shape-standard :
        is_custom g ≡ false
        → then_map encode_custom (then_map custom_entry (shape_of g (some t) (some v) (some n)))
          ≡ none
    unfolding shape_of custom_entry
    custom_shape-standard c = rw (s, c) refl

    pub standard_shape_self :
        is_custom g ≡ false
        → then_map standard_entry (shape_of g (some t) (some v) (some n)) ≡ some (n, v)
    unfolding shape_of standard_entry
    standard_shape_self c = rw (s, c) refl

    pub encode_standard_self :
        (rest : Item)
        → is_custom g ≡ false
        → g.annotations.of_field_name ≡ some n
        → get n rest ≡ some v
        → encode_standard rest g ≡ some (g.name, v)
    unfolding encode_standard encode_named encoded_value
    encode_standard_self rest c name e = rw (s, c, name) (rw e refl)
