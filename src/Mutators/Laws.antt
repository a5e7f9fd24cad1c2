-- ===== src/Mutators/Laws.antt =====
-- Who may write what: packages/zero/mutators.ts.
use openfaith.Common.{
  ◌≡◌, refl, arith, Bool, true, false, List, [], ◌∷◌, map, Option, none, some, Text, lit, ◌===◌,
  All, Bool-cases, ===_iff, ◌⊎◌, find-cases, inl, inr,
}
use openfaith.SyncEngine.{OpKind, insert, update, upsert, delete}
use openfaith.Mutations.{Fields}
use openfaith.Mutators.{
  AuthData, Call, EntityUiConfig, validate_mutation_data, is_field, is_foreign, local_operation,
  mutate_validated, mutate_decoded, run_authorized, effect_mutator, with_organization,
  validate_auth, mutate,
}

module _ (table_name org_id user_id : Text) where
  -- A write to the table, of a row of the organisation that says that the user changed it, and that
  -- deletes no row.
  pub record IsOwn (c : Call) : Type 0 where
    pub to_table : c.table_name ≡ table_name
    pub by_user : is_field (lit "updatedBy") user_id c.item ≡ true
    pub in_org : is_field (lit "orgId") org_id c.item ≡ true
    pub kept : ¬ (c.operation ≡ delete)

  is_foreign-false :
      (item : Fields)
      → is_foreign org_id user_id item ≡ false
      → (is_field (lit "updatedBy") user_id item ≡ true)
        × (is_field (lit "orgId") org_id item ≡ true)
  unfolding is_foreign
  is_foreign-false item h = ground arith

  local_operation-kept : (operation : OpKind) → ¬ (local_operation operation ≡ delete)
  unfolding local_operation
  local_operation-kept insert e = cc
  local_operation-kept update e = cc
  local_operation-kept upsert e = cc
  local_operation-kept delete e = cc

  map-IsOwn :
      (operation : OpKind) (items : List Fields)
      → All (λ i. is_foreign org_id user_id i ≡ false) items
      → All IsOwn (
          map
            (λ i. record {
              table_name = table_name;
              operation = local_operation operation;
              item = i;
            })
            items)
  map-IsOwn operation [] h = tt
  map-IsOwn operation (i ∷ items) (h, hs) = (
    record {
      to_table = refl;
      by_user = (is_foreign-false i h).0;
      in_org = (is_foreign-false i h).1;
      kept = local_operation-kept operation;
    },
    map-IsOwn operation items hs,
  )

  mutate_validated-IsOwn :
      (refuses : Call → Bool) (operation : OpKind) (role : Text) (items : List Fields)
      → (role === lit "admin") ≡ false
      → All IsOwn (mutate_validated refuses table_name operation org_id user_id role items).1
  unfolding mutate_validated
  mutate_validated-IsOwn refuses operation role items h =
      elim (find-cases (is_foreign org_id user_id) items) [
        | inl (i, m, foreign, e) ↦ rw (h, e) tt
        | inr (fine, e) ↦ rw (h, e) (map-IsOwn operation items fine)
      ]

  mutate_decoded-IsOwn :
      (refuses : Call → Bool) (operation : OpKind) (role : Text) (decoded : Option (List Fields))
      → (role === lit "admin") ≡ false
      → All IsOwn (mutate_decoded refuses table_name operation org_id user_id role decoded).1
  mutate_decoded-IsOwn refuses operation role none h = tt
  mutate_decoded-IsOwn refuses operation role (some items) h =
      mutate_validated-IsOwn refuses operation role items h

  effect_mutator-IsOwn :
      (refuses : Call → Bool) (entity : EntityUiConfig) (operation : OpKind) (role : Text)
      (input : List Fields)
      → (role === lit "admin") ≡ false
      → All IsOwn (effect_mutator refuses table_name entity operation org_id user_id role input).1
  unfolding effect_mutator
  effect_mutator-IsOwn refuses entity operation role input h =
      mutate_decoded-IsOwn refuses operation role (validate_mutation_data input operation entity) h

-- Nobody writes without a session that has an active organisation; and with one, an administrator or
-- the writes are the user's own.
abbrev pub IsAllowed : Option AuthData → Text → List Call → Type 0
IsAllowed auth_data table_name calls =
    (calls ≡ [])
    ⊎ ((auth : AuthData) × (org_id : Text) × (auth_data ≡ some auth)
        × (auth.active_organization_id ≡ some org_id)
        × (((auth.role === lit "admin") ≡ true) ⊎ All (IsOwn table_name org_id auth.sub) calls))

module _ (refuses : Call → Bool) (operation : OpKind) (entity : EntityUiConfig) where
  with_organization-IsAllowed :
      (auth : AuthData) (table_name : Text) (input : List Fields) (org : Option Text)
      → auth.active_organization_id ≡ org
      → IsAllowed
          (some auth)
          table_name
          (run_authorized refuses
            (some auth)
            operation
            table_name
            entity
            input
            (with_organization auth org)).1
  with_organization-IsAllowed auth table_name input none e = inl refl
  with_organization-IsAllowed auth table_name input (some []) e = inl refl
  with_organization-IsAllowed auth table_name input (some (c ∷ org)) e = inr (
    auth,
    c ∷ org,
    refl,
    e,
    elim (Bool-cases (auth.role === lit "admin")) [
      | inl admin ↦ inl admin
      | inr h ↦ inr (
          effect_mutator-IsOwn table_name (c ∷ org) auth.sub refuses entity operation auth.role
            input h)
    ],
  )

  run_authorized-IsAllowed :
      (auth_data : Option AuthData) (table_name : Text) (input : List Fields)
      → IsAllowed auth_data table_name
          (run_authorized refuses auth_data operation table_name entity input
            (validate_auth auth_data)).1
  unfolding validate_auth
  run_authorized-IsAllowed none table_name input = inl refl
  run_authorized-IsAllowed (some auth) table_name input =
      with_organization-IsAllowed auth table_name input auth.active_organization_id refl

-- On every run a mutator makes no call, or there is a session with an active organisation; and then the
-- user's role is admin, or each call is to the table that was named, is no deletion, and has an item with
-- the user as updatedBy and the active organisation as orgId.
pub mutate-IsAllowed :
    (refuses : Call → Bool) (auth_data : Option AuthData) (operation : OpKind)
    (mutators : List (Text × EntityUiConfig)) (table_name : Text) (input : List Fields)
    → IsAllowed auth_data table_name
        (mutate refuses auth_data operation mutators table_name input).1
unfolding mutate
mutate-IsAllowed refuses auth_data operation mutators table_name input =
    elim (find-cases (λ (m : Text × EntityUiConfig). m.0 === table_name) mutators) [
      | inl ((name, entity), m, same, e) ↦
          rw (e, ← (===_iff name table_name).0 same)
            (run_authorized-IsAllowed refuses operation entity auth_data name input)
      | inr (h, e) ↦ rw e (inl refl)
    ]
