-- ===== src/ZeroPush/Laws.antt =====
-- What becomes of mutations that are refused: backend/server/handlers/zeroMutatorsHandler.ts with
-- packages/zero/mutators.ts and backend/workers/workflows/externalPushWorkflow.ts.
use openfaith.Common.{ℕ, ◌≡◌, ap, ◌∙◌, Bool, List, [], ◌∷◌, Option, some, Text, All, map}
use openfaith.Store.{Db, Runtime}
use openfaith.SyncEngine.{OpKind, AdapterManager, Callbacks}
use openfaith.Mutations.{Fields, Mutation, EntityWorkflowItem, entity_workflows}
use openfaith.Mutators.{no_matching_auth, Call, EntityUiConfig, create_mutators}
use openfaith.Session.{SessionContext}
use openfaith.Workflows.Push.{PushState, push_workflow, Done, PushRun}
use openfaith.Workflows.Push.Laws.{IsFinished, IsProcessed, push_workflow-IsProcessed}
use openfaith.ZeroPush.{Run, auth_data_of, run_with, after_process, push_with, push}

-- A mutation that its mutator refuses since an item is not of the user or not of the organisation:
-- nothing is written.
abbrev pub IsRefused : Run → Mutation → Type 0
IsRefused run m =
    (item : Fields) × ((refuses : Call → Bool) → run refuses m ≡ (no_matching_auth item, []))

module _ {ℓ} {Result : Type ℓ} (find_mutator : Mutation → OpKind × Text × List Fields)
    (process : Run → List Mutation → Db → Option Result × Db) where
  -- A processor answers for a mutation whose mutator fails before it writes, and changes no row.
  abbrev pub AnswersRefused : Type ℓ
  AnswersRefused =
      (run : Run) (mutations : List Mutation) (db : Db)
      → All (IsRefused run) mutations
      → (r : Result) × (process run mutations db ≡ (some r, db))

  abbrev pub run_of : SessionContext → List (Text × EntityUiConfig) → Run
  run_of session mutators = run_with find_mutator process (some (auth_data_of session)) mutators

  started-push :
      (discovered : List EntityUiConfig) (mutators : List (Text × EntityUiConfig))
      (session : SessionContext) (c : ℕ) (org : Text) (mutations : List Mutation) (db : Db)
      (r : Result)
      → create_mutators discovered [] ≡ some mutators
      → session.active_organization_id ≡ some (c ∷ org)
      → process (run_of session mutators) mutations db ≡ (some r, db)
      → (push find_mutator process discovered session mutations db).started
        ≡ some (c ∷ org, push_workflow mutations db)
  unfolding push
  started-push discovered mutators session c org mutations db r hm ho hp =
      ap (λ o. (push_with find_mutator process session mutations db o).started) hm
      ∙ ap
          (λ o.
            (after_process find_mutator process o mutations
              (process (run_of session mutators) mutations db)).started)
          ho
      ∙ ap (λ x. (after_process find_mutator process (some (c ∷ org)) mutations x).started) hp

  -- The services of the organisation whose id is the token key
  module _ (rt : Runtime) (clock : Db → ℕ) (mk_entity_name : Text → Text)
      (manager : Text → AdapterManager) (callbacks : Text → Callbacks) where
    -- Suppose that the mutators refuse every mutation of a push, since an item is not of the user or not
    -- of the organisation, and that the processor answers for such mutations and changes no row. All the
    -- same the push workflow is started for the user's organisation, with all the mutations; and in every
    -- run of it that ends with success, each mutation of each entity is processed with success for the
    -- external system.
    pub push-refused :
        (discovered : List EntityUiConfig) (mutators : List (Text × EntityUiConfig))
        (session : SessionContext) (c : ℕ) (org : Text) (mutations : List Mutation) (db : Db)
        (log : List (
          Option
            (Done rt clock mk_entity_name (manager (c ∷ org)) (callbacks (c ∷ org)) (c ∷ org))))
        (s : PushState)
        → AnswersRefused
        → create_mutators discovered [] ≡ some mutators
        → session.active_organization_id ≡ some (c ∷ org)
        → All (IsRefused (run_of session mutators)) mutations
        → PushRun rt clock mk_entity_name
            (manager (c ∷ org))
            (callbacks (c ∷ org))
            (c ∷ org)
            (push_workflow mutations db)
            log
            s
        → IsFinished s
        → ((push find_mutator process discovered session mutations db).started
            ≡ some (c ∷ org, push_workflow mutations db))
          × All
              (λ (items : List EntityWorkflowItem).
                All
                  (IsProcessed rt clock mk_entity_name
                    (manager (c ∷ org))
                    (callbacks (c ∷ org))
                    (c ∷ org)
                    log)
                  items)
              (map (λ (w : Text × List EntityWorkflowItem). w.1) (entity_workflows mutations))
    push-refused discovered mutators session c org mutations db log s law hm ho refused run e =
        let (r, hp) = law (run_of session mutators) mutations db refused in
        (
          started-push discovered mutators session c org mutations db r hm ho hp,
          push_workflow-IsProcessed rt clock mk_entity_name (manager (c ∷ org))
              (callbacks (c ∷ org)) (c ∷ org) mutations db log s run e,
        )
