-- ===== src/Mutators/Enrichment/Laws.antt =====
-- What the mutators of packages/zero/mutators.ts make of the writes that enrichMutationData of
-- packages/schema/shared/introspection.ts prepares.
use openfaith.Common.{
  ℕ, suc, ◌≡◌, refl, Bool, true, false, List, [], ◌∷◌, ◌++◌, map, none, some, Text, lit, ◌===◌,
  ===-refl, All, find, if◌then◌else◌, ap,
}
use openfaith.SyncEngine.{OpKind, insert, update, upsert, delete}
use openfaith.Mutations.{Fields, Value, text}
use openfaith.Mutators.{
  Call, EntityUiConfig, validate_mutation_data, is_field, is_text, is_foreign, local_operation,
  all_performed, mutate_validated, effect_mutator,
}
use openfaith.Mutators.Enrichment.{
  spread, base_data, updated_data, enriched_item, enriched_items, enrich_mutation_data,
}

if-same {ℓ} : {A : Type ℓ} (b : Bool) (a : A) → (if b then a else a) ≡ a
if-same true a = refl
if-same false a = refl

find-append {ℓ} :
    {A : Type ℓ} (p : A → Bool) (xs ys zs : List A)
    → find p ys ≡ find p zs
    → find p (xs ++ ys) ≡ find p (xs ++ zs)
find-append p [] ys zs h = h
find-append p (x ∷ xs) ys zs h =
    ap (λ found. if p x then some x else found) (find-append p xs ys zs h)

-- The item says nothing of its organisation, or it says the one of the user.
abbrev pub names_own : Text → Fields → Bool
names_own org_id item =
    is_field (lit "orgId") org_id (spread item ((lit "orgId", text org_id) ∷ []))

-- On an insert the organisation of the item counts, so it has to be the user's.
abbrev pub IsOurs : Text → OpKind → Fields → Type 0
IsOurs org_id insert item = names_own org_id item ≡ true
IsOurs org_id upsert item = names_own org_id item ≡ true
IsOurs org_id update item = Unit {0}
IsOurs org_id delete item = Unit {0}

module _ (new_id : ℕ → Text) (mutated_at org_id user_id entity_type : Text) where
  org_id_found :
      (i : ℕ)
      → find
          (λ (f : Text × Value). f.0 === lit "orgId")
          (base_data new_id mutated_at org_id user_id entity_type i)
        ≡ find (λ (f : Text × Value). f.0 === lit "orgId") ((lit "orgId", text org_id) ∷ [])
  unfolding base_data lit ◌===◌
  org_id_found i = refl

  base_data-own :
      (i : ℕ) (item : Fields)
      → is_field
          (lit "orgId")
          org_id
          (spread item (base_data new_id mutated_at org_id user_id entity_type i))
        ≡ names_own org_id item
  unfolding is_field
  base_data-own i item = ap (is_text org_id) (
      find-append (λ (f : Text × Value). f.0 === lit "orgId") item
        (base_data new_id mutated_at org_id user_id entity_type i) ((lit "orgId", text org_id) ∷ [])
        (org_id_found i))

  updated_by_user :
      (old : Fields)
      → is_field
          (lit "updatedBy")
          user_id
          (spread (updated_data new_id mutated_at org_id user_id entity_type) old)
        ≡ true
  unfolding is_field updated_data lit ◌===◌
  updated_by_user old = ===-refl user_id

  updated_in_org :
      (old : Fields)
      → is_field
          (lit "orgId")
          org_id
          (spread (updated_data new_id mutated_at org_id user_id entity_type) old)
        ≡ is_field (lit "orgId") org_id old
  unfolding is_field updated_data lit ◌===◌
  updated_in_org old = refl

  inserted-own :
      (i : ℕ) (item : Fields)
      → names_own org_id item ≡ true
      → is_foreign org_id user_id (
          spread
            (updated_data new_id mutated_at org_id user_id entity_type)
            (spread item (base_data new_id mutated_at org_id user_id entity_type i)))
        ≡ false
  unfolding is_foreign
  inserted-own i item h =
      rw
        (
          updated_by_user (spread item (base_data new_id mutated_at org_id user_id entity_type i)),
          updated_in_org (spread item (base_data new_id mutated_at org_id user_id entity_type i)),
          base_data-own i item,
          h,
        )
        refl

  enriched_item-own :
      (operation : OpKind) (i : ℕ) (item : Fields)
      → IsOurs org_id operation item
      → is_foreign org_id user_id
          (enriched_item new_id mutated_at org_id user_id entity_type operation i item)
        ≡ false
  unfolding enriched_item is_foreign is_field updated_data lit ◌===◌
  enriched_item-own insert i item h = inserted-own i item h
  enriched_item-own upsert i item h = inserted-own i item h
  enriched_item-own update i item h = rw (===-refl org_id, ===-refl user_id) refl
  enriched_item-own delete i item h = rw (===-refl org_id, ===-refl user_id) refl

  enriched_items-own :
      (operation : OpKind) (i : ℕ) (items : List Fields)
      → All (IsOurs org_id operation) items
      → All
          (λ item. is_foreign org_id user_id item ≡ false)
          (enriched_items new_id mutated_at org_id user_id entity_type operation i items)
  unfolding enriched_items
  enriched_items-own operation i [] h = tt
  enriched_items-own operation i (item ∷ items) (h, hs) =
      (enriched_item-own operation i item h, enriched_items-own operation (suc i) items hs)

-- What a decoding gives has, item by item, the same user and the same organisation.
abbrev pub SameAuth : List Fields → List Fields → Type 0
SameAuth [] [] = Unit {0}
SameAuth [] (d ∷ decoded) = ⊥
SameAuth (i ∷ items) [] = ⊥
SameAuth (i ∷ items) (d ∷ decoded) =
    ((t : Text) → is_field (lit "orgId") t d ≡ is_field (lit "orgId") t i)
    × ((t : Text) → is_field (lit "updatedBy") t d ≡ is_field (lit "updatedBy") t i)
    × SameAuth items decoded

abbrev pub KeepsAuth : EntityUiConfig → OpKind → Type 0
KeepsAuth schema operation =
    (items decoded : List Fields)
    → validate_mutation_data items operation schema ≡ some decoded
    → SameAuth items decoded

module _ (org_id user_id : Text) where
  SameAuth-own :
      (items decoded : List Fields)
      → SameAuth items decoded
      → All (λ item. is_foreign org_id user_id item ≡ false) items
      → All (λ item. is_foreign org_id user_id item ≡ false) decoded
  unfolding is_foreign
  SameAuth-own [] [] same h = tt
  SameAuth-own [] (d ∷ decoded) same h = absurd same
  SameAuth-own (i ∷ items) [] same h = absurd same
  SameAuth-own (i ∷ items) (d ∷ decoded) (in_org, by_user, same) (h, hs) =
      (rw (in_org org_id, by_user user_id) h, SameAuth-own items decoded same hs)

  find-none :
      (items : List Fields)
      → All (λ item. is_foreign org_id user_id item ≡ false) items
      → find (is_foreign org_id user_id) items ≡ none
  find-none [] h = refl
  find-none (i ∷ items) (h, hs) = rw h (find-none items hs)

abbrev pub call : Text → OpKind → Fields → Call
call table_name operation i = record {
  table_name = table_name;
  operation = local_operation operation;
  item = i;
}

-- A schema's decoding keeps the user and the organisation of each item. The items of an insert or an
-- upsert name no other organisation than the user's. What the user interface sends, when its items are
-- decoded, the mutator of the same user and organisation does not refuse, whatever the role: when it can
-- decode what was sent, it makes a call for each item that it decoded, in order.
pub effect_mutator-enrich :
    (new_id : ℕ → Text) (mutated_at org_id user_id entity_type : Text) (refuses : Call → Bool)
    (table_name role : Text) (operation : OpKind) (schema : EntityUiConfig)
    (items sent validated : List Fields)
    → KeepsAuth schema operation
    → All (IsOurs org_id operation) items
    → enrich_mutation_data new_id mutated_at org_id user_id entity_type operation schema items
      ≡ some sent
    → validate_mutation_data sent operation schema ≡ some validated
    → effect_mutator refuses table_name schema operation org_id user_id role sent ≡ (
      all_performed refuses operation (map (call table_name operation) validated),
      map (call table_name operation) validated,
    )
unfolding enrich_mutation_data effect_mutator mutate_validated
effect_mutator-enrich new_id mutated_at org_id user_id entity_type refuses table_name role operation
      schema items sent validated keeps ours enriched decoded =
    let first =
      SameAuth-own org_id user_id
        (enriched_items new_id mutated_at org_id user_id entity_type operation 0 items) sent
        (keeps _ sent enriched)
        (enriched_items-own new_id mutated_at org_id user_id entity_type operation 0 items ours) in
    let second = SameAuth-own org_id user_id sent validated (keeps sent validated decoded) first in
    rw decoded (rw (find-none org_id user_id validated second) (if-same (role === lit "admin") _))
