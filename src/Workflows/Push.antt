-- ===== src/Workflows/Push.antt =====
-- How a push is processed: backend/workers/workflows/externalPushWorkflow.ts and
-- externalPushEntityWorkflow.ts.
pub mod Ends
pub mod Laws
mod Replaced
use openfaith.Common.{ℕ, zero, suc, ◌≡◌, List, [], ◌∷◌, ◌++◌, map, Option, none, some, Text}
use openfaith.Store.{Db, Error, external_push, ok, fail, die, Exec, Runtime}
use openfaith.Mutations.{
  Value, text, other, Fields, Operation, EntityWorkflowItem, Mutation, entity_workflows,
}
use openfaith.SyncEngine.{AdapterManager, Callbacks, CrudOp, process_mutation}

-- What the sync engine reads of a field: the text, or the JSON text of anything else.
abbrev value_text : Value → Text
value_text (text t) = t
value_text (other t) = t

-- `Object.values(op.primaryKey)[0]`; an operation of a push has a primary key.
abbrev first_value : Fields → Text
first_value [] = []
first_value ((name, v) ∷ _) = value_text v

abbrev pub crud_op : Operation → CrudOp
crud_op op = record {
  op = op.op;
  table_name = op.table_name;
  internal_id = first_value op.primary_key;
  value = map (λ (f : Text × Value). (f.0, value_text f.1)) op.value;
}

-- `Effect.mapError`
abbrev pub to_external_push : Error → Error
to_external_push e = external_push

-- The workflow of an entity: its items, those that its attempt has still to process, and how many more
-- attempts it has.
pub data Running : Type 0 where
  running : (items rest : List EntityWorkflowItem) (tries : ℕ) → Running

-- The workflow of a push: it goes on with the workflows of its entities, or has failed or died.
pub data PushState : Type 0 where
  pushing : List Running → Db → PushState
  failed : Error → Db → PushState
  died : Db → PushState

-- `ExternalPushEntityWorkflow` at its start, with `Activity.retry({ times: 3 })`
unfoldable pub push_entity_workflow : List EntityWorkflowItem → Running
push_entity_workflow items = running items items 3

-- `ExternalPushWorkflow` at its start
unfoldable pub push_workflow : List Mutation → Db → PushState
push_workflow mutations db =
    pushing
      (map (λ (w : Text × List EntityWorkflowItem). push_entity_workflow w.1)
        (entity_workflows mutations))
      db

-- The services of the organisation, whose id is the token key.
module _ (rt : Runtime) (clock : Db → ℕ) (mk_entity_name : Text → Text) (manager : AdapterManager)
    (callbacks : Callbacks) (token_key : Text) where
  abbrev pub process_item : EntityWorkflowItem → Exec (Unit {0})
  process_item i =
      process_mutation rt token_key clock mk_entity_name manager callbacks (crud_op i.op)

  -- A mutation that has been processed with success.
  pub record Done : Type 0 where
    pub item : EntityWorkflowItem
    pub before : Db
    pub after : Db
    pub succeeded : process_item item before ≡ (ok tt, after)

  -- With `concurrency: 'unbounded'`, whichever entity and whichever of its mutations may come next. The
  -- failure of a mutation ends the attempt of its entity, whose other mutations are interrupted.
  pub data PushStep : Option Done → PushState → PushState → Type 0 where
    processes :
        (before after : List Running) (items left right : List EntityWorkflowItem) (tries : ℕ)
        (db : Db) (d : Done)
        → d.before ≡ db
        → PushStep
            (some d)
            (pushing (before ++ running items (left ++ d.item ∷ right) tries ∷ after) db)
            (pushing (before ++ running items (left ++ right) tries ∷ after) d.after)
    tries_again :
        (before after : List Running) (items left right : List EntityWorkflowItem) (tries : ℕ)
        (i : EntityWorkflowItem) (e : Error) (db db' : Db)
        → process_item i db ≡ (fail e, db')
        → PushStep none
            (pushing (before ++ running items (left ++ i ∷ right) (suc tries) ∷ after) db)
            (pushing (before ++ running items items tries ∷ after) db')
    fails :
        (before after : List Running) (items left right : List EntityWorkflowItem)
        (i : EntityWorkflowItem) (e : Error) (db db' : Db)
        → process_item i db ≡ (fail e, db')
        → PushStep none
            (pushing (before ++ running items (left ++ i ∷ right) zero ∷ after) db)
            (failed (to_external_push e) db')
    dies :
        (before after : List Running) (items left right : List EntityWorkflowItem) (tries : ℕ)
        (i : EntityWorkflowItem) (db db' : Db)
        → process_item i db ≡ (die, db')
        → PushStep none
            (pushing (before ++ running items (left ++ i ∷ right) tries ∷ after) db)
            (died db')

  -- The steps of a push from its start, the latest first
  pub data PushRun (start : PushState) : List (Option Done) → PushState → Type 0 where
    begin : PushRun start [] start
    later :
        {log : List (Option Done)} {event : Option Done} {s s' : PushState}
        → PushRun start log s
        → PushStep event s s'
        → PushRun start (event ∷ log) s'
