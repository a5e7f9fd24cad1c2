-- ===== src/ZeroPush.antt =====
-- backend/server/handlers/zeroMutatorsHandler.ts: a push of the client is processed, and then sent to
-- the external system.
pub mod Laws
use openfaith.Common.{ℕ, Bool, List, [], ◌∷◌, Option, none, some, Text}
use openfaith.Store.{Db, Runtime}
use openfaith.SyncEngine.{OpKind, AdapterManager, Callbacks}
use openfaith.Mutations.{Fields, Mutation}
use openfaith.Mutators.{AuthData, Answer, Call, EntityUiConfig, create_mutators, mutate}
use openfaith.Session.{SessionContext}
use openfaith.Workflows.Push.{PushState, push_workflow}

-- `authData`
abbrev pub auth_data_of : SessionContext → AuthData
auth_data_of s = record {
  sub = s.user_id;
  active_organization_id = s.active_organization_id;
  role = s.role;
}

-- How a mutation is run in a transaction that refuses some calls
abbrev pub Run : Type 0
Run = (refuses : Call → Bool) → Mutation → Answer × List Call

-- The mutator that the library finds for a mutation, with its input, and `zeroPushProcessor.process`: it
-- answers unless it throws.
module _ {ℓ} {Result : Type ℓ} (find_mutator : Mutation → OpKind × Text × List Fields)
    (process : Run → List Mutation → Db → Option Result × Db) where
  -- The result, or none for a MutatorError, with the database, and the workflow that is started on it with
  -- its token key.
  pub record Pushed : Type ℓ where
    pub result : Option Result
    pub stored : Db
    pub started : Option (Text × PushState)

  abbrev pub run_with : Option AuthData → List (Text × EntityUiConfig) → Run
  run_with auth mutators refuses m =
      let (operation, table_name, input) = find_mutator m in
      mutate refuses auth operation mutators table_name input

  -- The fiber of the daemon starts the workflow with the token key of the organisation; what becomes of
  -- it is ignored, and an empty organisation is falsy.
  abbrev pub forked : Option Text → List Mutation → Db → Option (Text × PushState)
  forked none mutations db = none
  forked (some []) mutations db = none
  forked (some (c ∷ org)) mutations db = some (c ∷ org, push_workflow mutations db)

  abbrev pub after_process : Option Text → List Mutation → Option Result × Db → Pushed
  after_process org mutations (none, db) = record { result = none; stored = db; started = none }
  after_process org mutations (some result, db) = record {
    result = some result;
    stored = db;
    started = forked org mutations db;
  }

  abbrev pub push_with :
      SessionContext → List Mutation → Db → Option (List (Text × EntityUiConfig)) → Pushed
  push_with session mutations db none = record { result = none; stored = db; started = none }
  push_with session mutations db (some mutators) =
      after_process session.active_organization_id mutations
        (process (run_with (some (auth_data_of session)) mutators) mutations db)

  -- `push`
  unfoldable pub push :
      (discovered : List EntityUiConfig) → SessionContext → List Mutation → Db → Pushed
  push discovered session mutations db =
      push_with session mutations db (create_mutators discovered [])
