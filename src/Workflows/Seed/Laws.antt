-- ===== src/Workflows/Seed/Laws.antt =====
-- What seeding an organisation leaves: backend/workers/workflows/createOrgWorkflow.ts.
use openfaith.Common.{
  ℕ, suc, ◌≤◌, ◌≡◌, refl, ap, arith, sym, ◌∙◌, Bool, true, false, List, [], ◌∷◌, Option, none, some,
  inl, inr, All, find, filter, Bool-cases, Text, lit, ◌===◌, ===_iff, ===-refl,
}
use openfaith.Sql.{select, at_key, upsert, has_distinct_keys}
use openfaith.Sql.Laws.{HasUniqueKeys, at_key-upsert_rows, stored, after}
use openfaith.Sql.Rows.{at_key_of_distinct}
use openfaith.Store.{Sacrament, Db, ok, Runtime}
use openfaith.Workflows.Seed.{
  sacrament_key, set_sacrament, sacrament_types, id_or_new, sacrament_value, sacrament_values,
  seed_sacraments,
}

abbrev same : Text → Text → Bool
same a b = a === b

abbrev row_at : Text → List Sacrament → Option Sacrament
row_at id table = at_key sacrament_key same id table

none≢some : {a : Sacrament} → ¬ (none ≡ some a)
none≢some e = cc

some_injective : {a b : Sacrament} → some a ≡ some b → a ≡ b
some_injective e = cc

-- A row under another one with a different id is still the one with its id.
row_at-under :
    (x s : Sacrament) (table : List Sacrament)
    → row_at x.id table ≡ none
    → row_at s.id table ≡ some s
    → row_at s.id (x ∷ table) ≡ some s
unfolding at_key
row_at-under x s table fresh h = ground (arith, ===_iff x.id s.id)

-- A row that a search among some rows finds is the one with its id.
find-filter :
    (p q : Sacrament → Bool) (table : List Sacrament) (s : Sacrament)
    → HasUniqueKeys sacrament_key same table
    → find q (filter p table) ≡ some s
    → (row_at s.id table ≡ some s) × (p s ≡ true) × (q s ≡ true)
unfolding at_key
find-filter p q [] s u h = cc
find-filter p q (x ∷ table) s (fresh, u) h = elim (Bool-cases (p x)) [
  | inr np ↦ under (find-filter p q table s u (rw (← h, np) refl))
  | inl yp ↦ elim (Bool-cases (q x)) [
    | inr nq ↦ under (find-filter p q table s u (rw (← h, yp, nq) refl))
    | inl yq ↦
        let e : x ≡ s = some_injective (rw (← h, yp, yq) refl) in
        rw (← e) (rw (===-refl x.id) refl, yp, yq)
  ]
]
  where
    under :
        (row_at s.id table ≡ some s) × (p s ≡ true) × (q s ≡ true)
        → (row_at s.id (x ∷ table) ≡ some s) × (p s ≡ true) × (q s ≡ true)
    under (e, ps, qs) = (row_at-under x s table fresh e, ps, qs)

not_equal : (a b : Text) → (a === b) ≡ false → ¬ (a ≡ b)
not_equal a b h e = ground (arith, ===_iff a b)

types_differ :
    (¬ (lit "baptismWater" ≡ lit "salvation"))
    × (¬ (lit "baptismHolySpirit" ≡ lit "salvation"))
    × (¬ (lit "baptismHolySpirit" ≡ lit "baptismWater"))
unfolding lit ◌===◌
types_differ = (not_equal _ _ refl, not_equal _ _ refl, not_equal _ _ refl)

-- The organisation has a sacrament of a type.
abbrev pub HasSacrament : Text → List Sacrament → Text → Type 0
HasSacrament org_id table type =
    (id : Text) × (s : Sacrament) × (row_at id table ≡ some s)
    × (s.org_id ≡ org_id)
    × (s.type ≡ type)

module _ (rt : Runtime) (org_id user_id : Text) (created_at : ℕ) (table : List Sacrament)
    (unique : HasUniqueKeys sacrament_key same table) (next : ℕ)
    (fresh : (n : ℕ) → next ≤ n → row_at (rt.new_id n (lit "sacrament")) table ≡ none) where
  abbrev current : List Sacrament
  current = select (λ (s : Sacrament). s.org_id === org_id) table

  abbrev value : ℕ → Text → Sacrament
  value n type = sacrament_value rt org_id user_id created_at current n type

  abbrev IsSeed : Text → Sacrament → Type 0
  IsSeed type v =
      let row = stored set_sacrament (row_at v.id table) v in
      (row.org_id ≡ org_id) × (row.type ≡ type)

  found_row :
      (type : Text) (s : Sacrament)
      → find (λ (s' : Sacrament). s'.type === type) current ≡ some s
      → (row_at s.id table ≡ some s) × (s.org_id ≡ org_id) × (s.type ≡ type)
  found_row type s e =
      let (at, org, kind) =
        find-filter (λ (s' : Sacrament). s'.org_id === org_id)
          (λ (s' : Sacrament). s'.type === type) table s unique e in
      (at, (===_iff s.org_id org_id).0 org, (===_iff s.type type).0 kind)

  with_id : ℕ → Text → Option Sacrament → Sacrament
  with_id n type found = record (value n type) {
    id = id_or_new rt org_id user_id created_at n found;
  }

  with_id-IsSeed :
      (n : ℕ) (type : Text) (found : Option Sacrament)
      → next ≤ n
      → find (λ (s : Sacrament). s.type === type) current ≡ found
      → IsSeed type (with_id n type found)
  unfolding with_id sacrament_value set_sacrament
  with_id-IsSeed n type none le e = rw (fresh n le) (refl, refl)
  with_id-IsSeed n type (some s) le e =
      let (at, org, kind) = found_row type s e in rw at (org, kind)

  value-IsSeed : (n : ℕ) (type : Text) → next ≤ n → IsSeed type (value n type)
  unfolding with_id sacrament_value
  value-IsSeed n type le = with_id-IsSeed n type _ le refl

  values-HasSacrament :
      (values table' : List Sacrament)
      → ((k : Text) → row_at k table' ≡ after set_sacrament (row_at k table) (row_at k values))
      → (n : ℕ) (types : List Text) → next ≤ n
      → All
          (λ v. row_at v.id values ≡ some v)
          (sacrament_values rt org_id user_id created_at current n types)
      → All (HasSacrament org_id table') types
  unfolding sacrament_values
  values-HasSacrament values table' stores n [] le found = tt
  values-HasSacrament values table' stores n (t ∷ ts) le (here, found) =
      let v = value n t in
      let (org, type) = value-IsSeed n t le in
      (
        (
          v.id,
          stored set_sacrament (row_at v.id table) v,
          stores v.id ∙ ap (after set_sacrament (row_at v.id table)) here,
          org,
          type,
        ),
        values-HasSacrament values table' stores (suc n) ts (omega (arith, le)) found,
      )

  apart :
      (new_ids : (n m : ℕ) → rt.new_id n (lit "sacrament") ≡ rt.new_id m (lit "sacrament") → n ≡ m)
      (n m : ℕ) (t t' : Text)
      → next ≤ n
      → next ≤ m
      → ¬ (n ≡ m)
      → ¬ (t ≡ t')
      → ¬ ((value n t).id ≡ (value m t').id)
  unfolding sacrament_value
  apart new_ids n m t t' le_n le_m different_n different_t = by_found _ refl _ refl
    where
      by_found :
          (o : Option Sacrament)
          → find (λ (s : Sacrament). s.type === t) current ≡ o
          → (o' : Option Sacrament) → find (λ (s : Sacrament). s.type === t') current ≡ o'
          → ¬ (
              id_or_new rt org_id user_id created_at n o
              ≡ id_or_new rt org_id user_id created_at m o')
      by_found none e none e' same_id = different_n (new_ids n m same_id)
      by_found none e (some s') e' same_id =
          none≢some (sym (fresh n le_n) ∙ ap (λ i. row_at i table) same_id ∙ (found_row t' s' e').0)
      by_found (some s) e none e' same_id =
          none≢some
            (sym (fresh m le_m) ∙ ap (λ i. row_at i table) (sym same_id) ∙ (found_row t s e).0)
      by_found (some s) e (some s') e' same_id =
          let (at, org, kind) = found_row t s e in
          let (at', org', kind') = found_row t' s' e' in
          let equal : s ≡ s' = some_injective (sym at ∙ ap (λ i. row_at i table) same_id ∙ at') in
          different_t (sym kind ∙ ap (λ (x : Sacrament). x.type) equal ∙ kind')

  differ : (a b : Text) → ¬ (a ≡ b) → same a b ≡ false
  differ a b h = elim (Bool-cases (same a b)) [ inl e ↦ absurd (h ((===_iff a b).0 e)) | inr e ↦ e ]

  module _
      (new_ids : (n m : ℕ) → rt.new_id n (lit "sacrament") ≡ rt.new_id m (lit "sacrament") → n ≡ m)
      (n : ℕ) (le : next ≤ n) where
    abbrev values : List Sacrament
    values = sacrament_values rt org_id user_id created_at current n sacrament_types

    values-distinct : has_distinct_keys sacrament_key same values ≡ true
    unfolding has_distinct_keys sacrament_values sacrament_types
    values-distinct =
        let (water, holy_spirit, other) = types_differ in
        rw
          (
            differ _ _ (
                apart new_ids (suc n) n _ _ (omega (arith, le)) (omega (arith, le))
                  (λ e. omega arith) water),
            differ _ _ (
                apart new_ids (suc (suc n)) n _ _ (omega (arith, le)) (omega (arith, le))
                  (λ e. omega arith) holy_spirit),
            differ _ _ (
                apart new_ids (suc (suc n)) (suc n) _ _ (omega (arith, le)) (omega (arith, le))
                  (λ e. omega arith) other),
          )
          refl

-- typeid makes ids that differ from each other, and no sacrament has an id that is still to be made; the
-- primary keys of the sacraments are unique. Then the seed succeeds, with the sacraments that the
-- organisation has, and afterwards it has a sacrament of each of the three types.
pub seed_sacraments-HasSacrament :
    (rt : Runtime) (org_id user_id : Text) (created_at : ℕ) (db : Db)
    → HasUniqueKeys sacrament_key same db.sacraments
    → ((n : ℕ) → db.next_id ≤ n → row_at (rt.new_id n (lit "sacrament")) db.sacraments ≡ none)
    → ((n m : ℕ) → rt.new_id n (lit "sacrament") ≡ rt.new_id m (lit "sacrament") → n ≡ m)
    → let result = seed_sacraments rt org_id user_id created_at db in
      (result.0 ≡ ok tt) × All (HasSacrament org_id result.1.sacraments) sacrament_types
unfolding seed_sacraments upsert set_sacrament
seed_sacraments-HasSacrament rt org_id user_id created_at db unique fresh new_ids =
    let distinct =
      values-distinct rt org_id user_id created_at db.sacraments unique db.next_id fresh new_ids
        db.next_id (omega arith) in
    rw distinct (
      refl,
      values-HasSacrament rt org_id user_id created_at db.sacraments unique db.next_id fresh
          (values rt org_id user_id created_at db.sacraments unique db.next_id fresh new_ids
            db.next_id (omega arith))
          _
          (λ k.
            at_key-upsert_rows sacrament_key same ===_iff set_sacrament (λ old new. refl) k _
              db.sacraments distinct)
          db.next_id sacrament_types (omega arith)
          (at_key_of_distinct sacrament_key same ===_iff _ distinct),
    )
