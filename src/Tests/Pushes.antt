-- ===== src/Tests/Pushes.antt =====
-- A push on concrete data: two mutations of one table, the second processed first.
use openfaith.Common.{
  ◌*◌, ◌≤◌, ◌≡◌, refl, List, [], ◌∷◌, map, Option, some, length, ◌⊎◌, All, Text, ◌===◌,
}
use openfaith.Store.{Db, ok}
use openfaith.SyncEngine.{update}
use openfaith.Mutations.{
  Operation, CrudMutation, EntityWorkflowItem, Mutation, crud, text, entity_workflows,
}
use openfaith.Workflows.Push.{
  PushState, push_workflow, process_item, Done, PushStep, processes, PushRun, begin, later, running,
  pushing,
}
use openfaith.Workflows.Push.Laws.{IsProcessed, push_workflow-IsProcessed}
use openfaith.Workflows.Push.Ends.{count, Ended, push_workflow-ends}
use openfaith.Tests.{org, runtime, db}
use openfaith.Tests.Sync.{callbacks}
use openfaith.Tests.Flows.{quiet}

abbrev pub operation : Text → Operation
operation id = record {
  op = update;
  table_name = b'p' ∷ [];
  primary_key = (b'i' ∷ [], text id) ∷ [];
  value = [];
}

abbrev pub mutation : CrudMutation
mutation = record {
  args = (operation (b'1' ∷ []) ∷ operation (b'2' ∷ []) ∷ []) ∷ [];
  client_id = [];
  id = 1;
  name = [];
  timestamp = 2;
}

abbrev pub mutations : List Mutation
mutations = crud mutation ∷ []

abbrev pub item : Text → EntityWorkflowItem
item id = record { entity_name = b'p' ∷ []; mutation = mutation; op = operation id }

abbrev pub Processed : Type 0
Processed = Done runtime (λ _. 9) (λ n. n) quiet callbacks org

pub succeeds_first :
    process_item runtime (λ _. 9) (λ n. n) quiet callbacks org (item (b'1' ∷ [])) db ≡ (ok tt, db)
unfolding openfaith.SyncEngine.process_mutation openfaith.Store.◌>>=◌
    openfaith.Deletion.get_external_link openfaith.Store.reads openfaith.Store.pure ◌===◌
    openfaith.Tests.link
succeeds_first = refl

pub succeeds_second :
    process_item runtime (λ _. 9) (λ n. n) quiet callbacks org (item (b'2' ∷ [])) db ≡ (ok tt, db)
unfolding openfaith.SyncEngine.process_mutation openfaith.Store.◌>>=◌
    openfaith.Deletion.get_external_link openfaith.Store.reads openfaith.Store.pure ◌===◌
    openfaith.Tests.link
succeeds_second = refl

abbrev pub first : Processed
first = record { item = item (b'1' ∷ []); before = db; after = db; succeeded = succeeds_first }

abbrev pub second : Processed
second = record { item = item (b'2' ∷ []); before = db; after = db; succeeded = succeeds_second }

abbrev pub log : List (Option Processed)
log = some first ∷ some second ∷ []

abbrev pub ended : PushState
ended = pushing (running (item (b'1' ∷ []) ∷ item (b'2' ∷ []) ∷ []) [] 3 ∷ []) db

pub run :
    PushRun runtime (λ _. 9) (λ n. n) quiet callbacks org (push_workflow mutations db) log ended
unfolding push_workflow entity_workflows openfaith.Relations.group_by
    openfaith.Mutations.all_entity_workflows openfaith.Mutations.convert_custom_mutations ◌===◌
    openfaith.Workflows.Push.push_entity_workflow
run =
    later
      (later begin (
        processes [] [] (item (b'1' ∷ []) ∷ item (b'2' ∷ []) ∷ []) (item (b'1' ∷ []) ∷ []) [] 3 db
          second refl))
      (processes [] [] (item (b'1' ∷ []) ∷ item (b'2' ∷ []) ∷ []) [] [] 3 db first refl)

push_workflow-IsProcessed_example :
    All
      (λ (items : List EntityWorkflowItem).
        All (IsProcessed runtime (λ _. 9) (λ n. n) quiet callbacks org log) items)
      (map (λ (w : Text × List EntityWorkflowItem). w.1) (entity_workflows mutations))
push_workflow-IsProcessed_example =
    push_workflow-IsProcessed runtime (λ _. 9) (λ n. n) quiet callbacks org mutations db log ended
      run (refl, tt)

push_workflow-ends_example :
    (length log ≤ 4 * count (entity_workflows mutations))
    × (Ended runtime (λ _. 9) (λ n. n) quiet callbacks org ended
        ⊎ ((e : Option Processed) × (s' : PushState) × PushStep runtime
              (λ _. 9)
              (λ n. n)
              quiet
              callbacks
              org
              e
              ended
              s'))
push_workflow-ends_example =
    push_workflow-ends runtime (λ _. 9) (λ n. n) quiet callbacks org mutations db log ended run
