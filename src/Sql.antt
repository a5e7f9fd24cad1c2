-- ===== src/Sql.antt =====
-- The SQL statements of the program over a table, which is the list of its rows: SELECT and UPDATE
-- with a condition, and INSERT with ON CONFLICT DO UPDATE and RETURNING on the primary key.
pub mod Laws
pub mod Rows
use openfaith.Common.{
  Bool, true, false, not, ◌&&◌, List, [], ◌∷◌, map, Option, none, some, if◌then◌else◌, filter, any,
  find,
}

module _ {ℓ} {Row : Type ℓ} where
  -- SELECT * FROM table WHERE p
  abbrev pub select : (Row → Bool) → List Row → List Row
  select p table = filter p table

  -- UPDATE table SET f WHERE p
  unfoldable pub update : (Row → Bool) → (Row → Row) → List Row → List Row
  update p f [] = []
  update p f (r ∷ table) = (if p r then f r else r) ∷ update p f table

module _ {ℓ κ} {Row : Type ℓ} {Key : Type κ} (key : Row → Key) (same : Key → Key → Bool) where
  -- The row with a primary key.
  unfoldable pub at_key : Key → List Row → Option Row
  at_key k [] = none
  at_key k (r ∷ table) = if same (key r) k then some r else at_key k table

  module _ (set : Row → Row → Row) where
    -- INSERT INTO table VALUES (new) ON CONFLICT (key) DO UPDATE SET …, where `set old new` is the
    -- stored row with the SET clause applied and `new` is EXCLUDED. The pair is the row that
    -- RETURNING gives, and the table.
    unfoldable pub upsert_row : Row → List Row → Row × List Row
    upsert_row new [] = (new, new ∷ [])
    upsert_row new (old ∷ table) =
        let rest = upsert_row new table in
        if same (key old) (key new)
        then (set old new, set old new ∷ table)
        else (rest.0, old ∷ rest.1)

    unfoldable pub upsert_rows : List Row → List Row → List Row × List Row
    upsert_rows [] table = ([], table)
    upsert_rows (new ∷ news) table =
        let first = upsert_row new table in
        let rest = upsert_rows news first.1 in (first.0 ∷ rest.0, rest.1)

  -- No two rows of one statement have the same key.
  unfoldable pub has_distinct_keys : List Row → Bool
  has_distinct_keys [] = true
  has_distinct_keys (r ∷ rows) =
      not (any (λ s. same (key s) (key r)) rows) && has_distinct_keys rows

  -- The whole statement. A command that would touch a row twice is refused by the database
  -- ("ON CONFLICT DO UPDATE command cannot affect row a second time") and changes nothing.
  unfoldable pub upsert : (Row → Row → Row) → List Row → List Row → Option (List Row × List Row)
  upsert set rows table = if has_distinct_keys rows then some (upsert_rows set rows table) else none
