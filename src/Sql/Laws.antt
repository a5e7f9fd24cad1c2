-- ===== src/Sql/Laws.antt =====
-- The row with a given key after each statement, and that primary keys stay unique.
use mathlib.Core.Option
use openfaith.Common.{
  Bool, true, false, ◌≡◌, refl, ◌∙◌, ◌↔◌, inl, inr, List, [], ◌∷◌, Option, none, some, arith,
  if◌then◌else◌, Bool-cases, any,
}
use openfaith.Sql.{at_key, update, upsert_row, upsert_rows, has_distinct_keys}

-- What the database stores for a row that an upsert brings.
abbrev pub stored {ℓ} : {Row : Type ℓ} → (Row → Row → Row) → Option Row → Row → Row
stored set none new = new
stored set (some old) new = set old new

-- The row with some key after a statement, from the row before it and the new row with that key.
abbrev pub after {ℓ} : {Row : Type ℓ} → (Row → Row → Row) → Option Row → Option Row → Option Row
after set old none = old
after set old (some new) = some (stored set old new)

-- What RETURNING gives for that key.
abbrev pub returned {ℓ} : {Row : Type ℓ} → (Row → Row → Row) → Option Row → Option Row → Option Row
returned set old none = none
returned set old (some new) = some (stored set old new)

module _ {ℓ κ} {Row : Type ℓ} {Key : Type κ} (key : Row → Key) (same : Key → Key → Bool) where
  -- The primary key constraint.
  abbrev pub HasUniqueKeys : List Row → Type ℓ
  HasUniqueKeys [] = Unit
  HasUniqueKeys (r ∷ table) = (at_key key same (key r) table ≡ none) × HasUniqueKeys table

module _ {ℓ κ} {Row : Type ℓ} {Key : Type κ} (key : Row → Key) (same : Key → Key → Bool)
    (same_iff : (a b : Key) → (same a b ≡ true) ↔ (a ≡ b)) where
  same_refl : (a : Key) → same a a ≡ true
  same_refl a = (same_iff a a).1 refl

  pub key_of-at_key :
      (k : Key) (table : List Row) {r : Row} → at_key key same k table ≡ some r → key r ≡ k
  unfolding at_key
  key_of-at_key k [] {r} e = cc
  key_of-at_key k (s ∷ table) {r} e =
      ground (arith, key_of-at_key k table {r = r}, same_iff (key s) k)

  module _ (p : Row → Bool) (f : Row → Row) (keeps : (r : Row) → key (f r) ≡ key r) where
    key-if : (r : Row) → key (if p r then f r else r) ≡ key r
    key-if r = ground (arith, keeps r)

    pub at_key-update :
        (k : Key) (table : List Row)
        → at_key key same k (update p f table)
          ≡ Option.map (λ r. if p r then f r else r) (at_key key same k table)
    unfolding at_key update
    at_key-update k [] = refl
    at_key-update k (r ∷ table) = elim (Bool-cases (p r)) [
      | inl t ↦
          rw (t, keeps r)
            (elim (Bool-cases (same (key r) k)) [
              | inl s ↦ ground (arith, at_key-update k table)
              | inr d ↦ ground (arith, at_key-update k table)
            ])
      | inr t ↦ ground (arith, at_key-update k table)
    ]

    pub update-HasUniqueKeys :
        (table : List Row)
        → HasUniqueKeys key same table
        → HasUniqueKeys key same (update p f table)
    unfolding update
    update-HasUniqueKeys [] h = h
    update-HasUniqueKeys (r ∷ table) (fresh, h) =
        (rw (key-if r) (at_key-update (key r) table ∙ rw fresh), update-HasUniqueKeys table h)

  module _ (set : Row → Row → Row) (keeps : (old new : Row) → key (set old new) ≡ key old) where
    pub fst-upsert_row :
        (new : Row) (table : List Row)
        → (upsert_row key same set new table).0 ≡ stored set (at_key key same (key new) table) new
    unfolding at_key upsert_row
    fst-upsert_row new [] = refl
    fst-upsert_row new (old ∷ table) = ground (arith, fst-upsert_row new table)

    pub at_key-upsert_row :
        (k : Key) (new : Row) (table : List Row)
        → at_key key same k (upsert_row key same set new table).1 ≡ (
            if same (key new) k
            then some (stored set (at_key key same (key new) table) new)
            else at_key key same k table)
    unfolding at_key upsert_row
    at_key-upsert_row k new [] = refl
    at_key-upsert_row k new (old ∷ table) = ground (
      arith,
      at_key-upsert_row k new table,
      same_iff (key old) (key new),
      same_iff (key old) k,
      same_iff (key new) k,
      keeps old new,
    )

    upsert_row-HasUniqueKeys :
        (new : Row) (table : List Row)
        → HasUniqueKeys key same table
        → HasUniqueKeys key same (upsert_row key same set new table).1
    unfolding upsert_row at_key
    upsert_row-HasUniqueKeys new [] h = (refl, tt)
    upsert_row-HasUniqueKeys new (old ∷ table) (fresh, h) =
        elim (Bool-cases (same (key old) (key new))) [
          | inl e ↦ rw (e, keeps old new) (fresh, h)
          | inr d ↦ rw d (
            at_key-upsert_row (key old) new table
                ∙ ground (arith, same_iff (key old) (key new), same_iff (key new) (key old)),
            upsert_row-HasUniqueKeys new table h,
          )
        ]

    pub upsert_rows-HasUniqueKeys :
        (news table : List Row)
        → HasUniqueKeys key same table
        → HasUniqueKeys key same (upsert_rows key same set news table).1
    unfolding upsert_rows
    upsert_rows-HasUniqueKeys [] table h = h
    upsert_rows-HasUniqueKeys (new ∷ news) table h =
        upsert_rows-HasUniqueKeys news _ (upsert_row-HasUniqueKeys new table h)

    -- A row whose key no new row has stays as it was.
    at_key-upsert_rows_other :
        (k : Key) (news table : List Row)
        → at_key key same k news ≡ none
        → at_key key same k (upsert_rows key same set news table).1 ≡ at_key key same k table
    unfolding upsert_rows at_key
    at_key-upsert_rows_other k [] table h = refl
    at_key-upsert_rows_other k (new ∷ news) table h = elim (Bool-cases (same (key new) k)) [
      | inl e ↦ ground arith
      | inr d ↦
          at_key-upsert_rows_other k news _ (ground arith) ∙ at_key-upsert_row k new table ∙ rw d
    ]

    any-at_key :
        (k : Key) (rows : List Row)
        → any (λ s. same (key s) k) rows ≡ false
        → at_key key same k rows ≡ none
    unfolding at_key
    any-at_key k [] h = refl
    any-at_key k (r ∷ rows) h = ground (arith, any-at_key k rows)

    -- The row with a key after all rows of a statement with distinct keys.
    pub at_key-upsert_rows :
        (k : Key) (news table : List Row)
        → has_distinct_keys key same news ≡ true
        → at_key key same k (upsert_rows key same set news table).1
          ≡ after set (at_key key same k table) (at_key key same k news)
    unfolding upsert_rows at_key has_distinct_keys
    at_key-upsert_rows k [] table h = refl
    at_key-upsert_rows k (new ∷ news) table h = elim (Bool-cases (same (key new) k)) [
      | inl e ↦
          let same_key = (same_iff _ _).0 e in
          at_key-upsert_rows_other k news _ (any-at_key k news (rw (← same_key) (ground arith)))
          ∙ at_key-upsert_row k new table
          ∙ rw (e, same_key)
      | inr d ↦
          rw d (at_key-upsert_rows k news _ (ground arith) ∙ rw (at_key-upsert_row k new table, d))
    ]

    fst-key : (new : Row) (table : List Row) → key (upsert_row key same set new table).0 ≡ key new
    unfolding upsert_row
    fst-key new [] = refl
    fst-key new (old ∷ table) =
        ground (arith, fst-key new table, keeps old new, same_iff (key old) (key new))

    -- The rows that RETURNING gives: one for each new row, as the statement leaves it.
    pub returned-upsert_rows :
        (k : Key) (news table : List Row)
        → has_distinct_keys key same news ≡ true
        → at_key key same k (upsert_rows key same set news table).0
          ≡ returned set (at_key key same k table) (at_key key same k news)
    unfolding upsert_rows at_key has_distinct_keys
    returned-upsert_rows k [] table h = refl
    returned-upsert_rows k (new ∷ news) table h = elim (Bool-cases (same (key new) k)) [
      | inl e ↦
          let same_key = (same_iff _ _).0 e in
          rw (fst-key new table, e, fst-upsert_row new table, same_key)
      | inr d ↦
          rw (fst-key new table, d)
            (returned-upsert_rows k news _ (ground arith) ∙ rw (at_key-upsert_row k new table, d))
    ]
