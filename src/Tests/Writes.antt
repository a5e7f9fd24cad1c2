-- ===== src/Tests/Writes.antt =====
-- The writes of a user on concrete data: packages/zero/mutators.ts.
use openfaith.Common.{◌≡◌, refl, Bool, false, List, [], ◌∷◌, some, Text, lit, ◌===◌}
use openfaith.SyncEngine.{update, delete}
use openfaith.Mutations.{Fields, text}
use openfaith.Mutators.{
  AuthData, Answer, Call, EntityUiConfig, mutate, effect_mutator, mutate_validated, all_performed,
  validate_mutation_data, validate_auth, is_foreign, is_field, local_operation, done,
  no_matching_auth,
}
use openfaith.Mutators.Enrichment.{
  enrich_mutation_data, enriched_items, enriched_item, updated_data,
}
use openfaith.Mutators.Enrichment.Laws.{SameAuth, KeepsAuth, effect_mutator-enrich, call}
use openfaith.Mutators.Laws.{IsAllowed, mutate-IsAllowed}

abbrev pub ann : AuthData
ann = record { sub = b'a' ∷ []; active_organization_id = some (b'o' ∷ []); role = b'u' ∷ [] }

abbrev pub people : EntityUiConfig
people = record {
  tag = b'p' ∷ [];
  decode = λ items. some items;
  decode_update = λ items. some items;
  decode_delete = λ items. some items;
}

abbrev table : Text
table = b'p' ∷ b's' ∷ []

abbrev row : Text → Fields
row org = (lit "updatedBy", text (b'a' ∷ [])) ∷ (lit "orgId", text org) ∷ []

abbrev accepts : Call → Bool
accepts c = false

abbrev run : Text → Answer × List Call
run org = mutate accepts (some ann) delete ((table, people) ∷ []) table (row org ∷ [])

own_row :
    run (b'o' ∷ [])
    ≡ (done, record { table_name = table; operation = update; item = row (b'o' ∷ []) } ∷ [])
unfolding mutate ◌===◌ validate_auth effect_mutator validate_mutation_data mutate_validated lit
    is_foreign is_field all_performed local_operation
own_row = refl

foreign_row : run (b'q' ∷ []) ≡ (no_matching_auth (row (b'q' ∷ [])), [])
unfolding mutate ◌===◌ validate_auth effect_mutator validate_mutation_data mutate_validated lit
    is_foreign is_field
foreign_row = refl

mutate-IsAllowed_example : IsAllowed (some ann) table (run (b'o' ∷ [])).1
mutate-IsAllowed_example =
    mutate-IsAllowed accepts (some ann) delete ((table, people) ∷ []) table (row (b'o' ∷ []) ∷ [])

SameAuth-refl : (items : List Fields) → SameAuth items items
SameAuth-refl [] = tt
SameAuth-refl (i ∷ items) = (λ t. refl, λ t. refl, SameAuth-refl items)

some_injective : {a b : List Fields} → some a ≡ some b → a ≡ b
some_injective e = cc

keeps : KeepsAuth people update
unfolding validate_mutation_data
keeps items decoded e = rw (← some_injective e) (SameAuth-refl items)

abbrev sent : List Fields
sent =
    ((lit "orgId", text (b'o' ∷ []))
      ∷ (lit "updatedAt", text (b't' ∷ []))
      ∷ (lit "updatedBy", text (b'a' ∷ []))
      ∷ (lit "orgId", text (b'q' ∷ []))
      ∷ [])
    ∷ []

effect_mutator-enrich_example :
    effect_mutator accepts table people update (b'o' ∷ []) (b'a' ∷ []) (b'u' ∷ []) sent ≡ (
      done,
      call table update (
            (lit "orgId", text (b'o' ∷ []))
            ∷ (lit "updatedAt", text (b't' ∷ []))
            ∷ (lit "updatedBy", text (b'a' ∷ []))
            ∷ (lit "orgId", text (b'q' ∷ []))
            ∷ [])
          ∷ [],
    )
unfolding validate_mutation_data enrich_mutation_data enriched_items enriched_item updated_data
    all_performed
effect_mutator-enrich_example =
    effect_mutator-enrich (λ i. []) (b't' ∷ []) (b'o' ∷ []) (b'a' ∷ []) (b'p' ∷ []) accepts table
      (b'u' ∷ []) update people (((lit "orgId", text (b'q' ∷ [])) ∷ []) ∷ []) sent sent keeps
      (tt, tt) refl refl
