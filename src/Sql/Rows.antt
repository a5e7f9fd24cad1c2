-- ===== src/Sql/Rows.antt =====
-- Updates that meet no row, and the rows of one statement.
use openfaith.Common.{
  Bool, true, false, ◌≡◌, refl, ◌↔◌, List, [], ◌∷◌, some, arith, if◌then◌else◌, any, All,
}
use openfaith.Sql.{select, at_key, update, has_distinct_keys}

-- An update whose condition no row meets.
pub update_none {ℓ} :
    {Row : Type ℓ} (p : Row → Bool) (f : Row → Row) (table : List Row)
    → ((r : Row) → p r ≡ false)
    → update p f table ≡ table
unfolding update
update_none p f [] h = refl
update_none p f (r ∷ table) h = rw (h r, update_none p f table h)

-- A condition that no updated row meets selects nothing.
pub select-update_none {ℓ} :
    {Row : Type ℓ} (q p : Row → Bool) (f : Row → Row) (table : List Row)
    → ((r : Row) → q (if p r then f r else r) ≡ false)
    → select q (update p f table) ≡ []
unfolding update
select-update_none q p f [] h = refl
select-update_none q p f (r ∷ table) h = rw (h r) (select-update_none q p f table h)

module _ {ℓ κ} {Row : Type ℓ} {Key : Type κ} (key : Row → Key) (same : Key → Key → Bool)
    (same_iff : (a b : Key) → (same a b ≡ true) ↔ (a ≡ b)) where
  -- Each row of a statement with distinct keys is the one with its key.
  abbrev IsFoundIn : List Row → Row → Type ℓ
  IsFoundIn rows r = at_key key same (key r) rows ≡ some r

  found-cons :
      (x : Row) (rows found : List Row)
      → any (λ s. same (key s) (key x)) found ≡ false
      → All (IsFoundIn rows) found
      → All (IsFoundIn (x ∷ rows)) found
  unfolding at_key
  found-cons x rows [] h a = a
  found-cons x rows (r ∷ found) h (e, a) = (
    ground (arith, same_iff (key x) (key r), same_iff (key r) (key x)),
    found-cons x rows found (ground arith) a,
  )

  pub at_key_of_distinct :
      (rows : List Row) → has_distinct_keys key same rows ≡ true → All (IsFoundIn rows) rows
  unfolding at_key has_distinct_keys
  at_key_of_distinct [] h = tt
  at_key_of_distinct (x ∷ rows) h = (
    ground (arith, same_iff (key x) (key x)),
    found-cons x rows rows (ground arith) (at_key_of_distinct rows (ground arith)),
  )
