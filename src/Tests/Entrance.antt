-- ===== src/Tests/Entrance.antt =====
-- Sessions and pushes on concrete data: backend/server/live/sessionMiddlewareLive.ts and
-- backend/server/handlers/zeroMutatorsHandler.ts.
use openfaith.Common.{
  ℕ, ◌≡◌, refl, Bool, true, false, List, [], ◌∷◌, ◌++◌, Option, none, some, Text, lit, ◌===◌, inr,
  All, map,
}
use openfaith.Store.{Db}
use openfaith.SyncEngine.{OpKind, update}
use openfaith.Mutations.{Fields, text, EntityWorkflowItem, Mutation, crud, entity_workflows}
use openfaith.Mutators.{AuthData, no_matching_auth, Call, EntityUiConfig, create_mutators}
use openfaith.Session.{SessionContext, UserSession, set_session, of_auth_data}
use openfaith.Session.Laws.{Entry, set_session-Entry}
use openfaith.Workflows.Push.{push_workflow}
use openfaith.Workflows.Push.Laws.{IsProcessed}
use openfaith.ZeroPush.{Run, auth_data_of, run_with, push}
use openfaith.ZeroPush.Laws.{AnswersRefused, push-refused}
use openfaith.Tests.{org, runtime, db}
use openfaith.Tests.Sync.{callbacks}
use openfaith.Tests.Pushes.{mutation, mutations, log, ended, run}
use openfaith.Tests.Flows.{quiet}
use openfaith.Tests.Writes.{ann, people}

-- The keys verify the token t.
abbrev verify : Text → Unit {0} → Option (Unit {0})
verify (c ∷ []) keys = some tt
verify _ keys = none

abbrev no_session : List (Text × Text) → Option (Option UserSession)
no_session headers = some none

abbrev bearer : List (Text × Text)
bearer = (lit "authorization", lit "Bearer " ++ b't' ∷ []) ∷ []

set_session-Entry_example :
    Entry (some tt) verify (λ _. some ann) no_session bearer (of_auth_data ann)
unfolding set_session ◌===◌ lit openfaith.Session.after_prefix
set_session-Entry_example =
    set_session-Entry (some tt) verify (λ _. some ann) no_session bearer (of_auth_data ann) refl

-- A user of the organisation, who is no admin, and an update of a row of the organisation q.
abbrev session : SessionContext
session = record { user_id = b'a' ∷ []; role = b'u' ∷ []; active_organization_id = some org }

abbrev foreign : Fields
foreign = (lit "updatedBy", text (b'a' ∷ [])) ∷ (lit "orgId", text (b'q' ∷ [])) ∷ []

abbrev find_mutator : Mutation → OpKind × Text × List Fields
find_mutator m = (update, b'p' ∷ b's' ∷ [], foreign ∷ [])

-- A processor that makes no transaction
abbrev process : Run → List Mutation → Db → Option (Unit {0}) × Db
process _ _ stored = (some tt, stored)

answers : AnswersRefused find_mutator process
answers _ _ stored _ = (tt, refl)

mutators_of_people : create_mutators (people ∷ []) [] ≡ some ((b'p' ∷ b's' ∷ [], people) ∷ [])
unfolding openfaith.Mutators.create_mutators openfaith.Strings.pluralize
    openfaith.Strings.is_inherited ◌===◌ lit openfaith.Common.lower_code
    openfaith.Strings.irregular_plural openfaith.Strings.irregular_plurals
    openfaith.Strings.regular_plural openfaith.Strings.after_consonant openfaith.Strings.is_sibilant
    openfaith.Common.upper_code openfaith.Strings.is_vowel openfaith.Strings.preserve_case
mutators_of_people = refl

abbrev run_foreign : Run
run_foreign =
    run_with find_mutator process (some (auth_data_of session)) ((b'p' ∷ b's' ∷ [], people) ∷ [])

refused :
    (refuses : Call → Bool) (m : Mutation) → run_foreign refuses m ≡ (no_matching_auth foreign, [])
unfolding ◌===◌ lit openfaith.Mutators.mutate openfaith.Mutators.validate_auth
    openfaith.Mutators.effect_mutator openfaith.Mutators.validate_mutation_data
    openfaith.Mutators.mutate_validated openfaith.Mutators.is_foreign openfaith.Mutators.is_field
refused refuses m = refl

push-refused_example :
    ((push find_mutator process (people ∷ []) session mutations db).started
      ≡ some (org, push_workflow mutations db))
    × All
        (λ (items : List EntityWorkflowItem).
          All (IsProcessed runtime (λ _. 9) (λ n. n) quiet callbacks org log) items)
        (map (λ (w : Text × List EntityWorkflowItem). w.1) (entity_workflows mutations))
push-refused_example =
    push-refused find_mutator process runtime (λ _. 9) (λ n. n) (λ _. quiet) (λ _. callbacks)
      (people ∷ []) ((b'p' ∷ b's' ∷ [], people) ∷ []) session b'o' [] mutations db log ended answers
      mutators_of_people refl ((foreign, λ refuses. refused refuses (crud mutation)), tt) run
      (refl, tt)
