-- ===== src/Workflows/Push/Ends.antt =====
-- That a push ends, in any interleaving: backend/workers/workflows/externalPushWorkflow.ts and
-- externalPushEntityWorkflow.ts.
use openfaith.Common.{
  ℕ, zero, suc, ◌+◌, ◌*◌, ◌≤◌, ◌≡◌, refl, ap, arith, List, [], ◌∷◌, ◌++◌, map, Option, none, some,
  length, ◌⊎◌, inl, inr, All, Text,
}
use openfaith.Store.{Db, Exit, ok, fail, die, Exec, Runtime}
use openfaith.SyncEngine.{AdapterManager, Callbacks}
use openfaith.Mutations.{EntityWorkflowItem, Mutation, entity_workflows}
use openfaith.Workflows.Push.{
  Running, running, PushState, pushing, failed, died, push_entity_workflow, push_workflow,
  process_item, Done, PushStep, processes, tries_again, fails, dies, PushRun, begin, later,
}
use openfaith.Workflows.Push.Laws.{rest_of, IsFinished}

-- The first workflow that goes on, with the first of its items that are still to be processed.
pub record Open (ws : List Running) : Type 0 where
  pub before : List Running
  pub after : List Running
  pub items : List EntityWorkflowItem
  pub item : EntityWorkflowItem
  pub right : List EntityWorkflowItem
  pub tries : ℕ
  pub at : ws ≡ before ++ running items (item ∷ right) tries ∷ after

Open-under : (w : Running) (ws : List Running) → Open ws → Open (w ∷ ws)
Open-under w ws o = record {
  before = w ∷ o.before;
  after = o.after;
  items = o.items;
  item = o.item;
  right = o.right;
  tries = o.tries;
  at = ap (λ x. w ∷ x) o.at;
}

Open-or_finished : (ws : List Running) → All (λ w. rest_of w ≡ []) ws ⊎ Open ws
Open-or_finished [] = inl tt
Open-or_finished (running items (i ∷ right) tries ∷ ws) = inr (record {
  before = [];
  after = ws;
  items = items;
  item = i;
  right = right;
  tries = tries;
  at = refl;
})
Open-or_finished (running items [] tries ∷ ws) = elim (Open-or_finished ws) [
  | inl f ↦ inl (refl, f)
  | inr o ↦ inr (Open-under (running items [] tries) ws o)
]

-- The items that the attempts may still process.
abbrev attempts : ℕ → List EntityWorkflowItem → ℕ
attempts zero items = 0
attempts (suc n) items = length items + attempts n items

abbrev cost : Running → ℕ
cost (running items rest tries) = length rest + attempts tries items

abbrev costs : List Running → ℕ
costs [] = 0
costs (w ∷ ws) = cost w + costs ws

costs-replace :
    (before after : List Running) (a b : Running)
    → cost b + 1 ≤ cost a
    → costs (before ++ b ∷ after) + 1 ≤ costs (before ++ a ∷ after)
costs-replace [] after a b h = omega (arith, h)
costs-replace (w ∷ before) after a b h = omega (arith, costs-replace before after a b h)

costs_pos :
    (before after : List Running) (a : Running) → 1 ≤ cost a → 1 ≤ costs (before ++ a ∷ after)
costs_pos [] after a h = omega (arith, h)
costs_pos (w ∷ before) after a h = omega (arith, costs_pos before after a h)

abbrev cost_of : PushState → ℕ
cost_of (pushing ws db) = costs ws
cost_of (failed e db) = 0
cost_of (died db) = 0

-- The number of the items of a push
abbrev pub count : List (Text × List EntityWorkflowItem) → ℕ
count [] = 0
count ((name, items) ∷ ws) = length items + count ws

abbrev started : List (Text × List EntityWorkflowItem) → List Running
started ws = map (λ (w : Text × List EntityWorkflowItem). push_entity_workflow w.1) ws

costs-started : (ws : List (Text × List EntityWorkflowItem)) → costs (started ws) ≡ 4 * count ws
unfolding push_entity_workflow
costs-started [] = refl
costs-started ((name, items) ∷ ws) = omega (arith, costs-started ws)

length-middle :
    (left right : List EntityWorkflowItem) (i : EntityWorkflowItem)
    → length (left ++ i ∷ right) ≡ length (left ++ right) + 1
length-middle [] right i = omega arith
length-middle (x ∷ left) right i = omega (arith, length-middle left right i)

module _ (rt : Runtime) (clock : Db → ℕ) (mk_entity_name : Text → Text) (manager : AdapterManager)
    (callbacks : Callbacks) (token_key : Text) where
  abbrev Event : Type 0
  Event = Option (Done rt clock mk_entity_name manager callbacks token_key)

  abbrev process : EntityWorkflowItem → Exec (Unit {0})
  process i = process_item rt clock mk_entity_name manager callbacks token_key i

  abbrev Steps : Event → PushState → PushState → Type 0
  Steps e s s' = PushStep rt clock mk_entity_name manager callbacks token_key e s s'

  abbrev Run : PushState → List Event → PushState → Type 0
  Run start log s = PushRun rt clock mk_entity_name manager callbacks token_key start log s

  step-cost : (e : Event) (s s' : PushState) → Steps e s s' → cost_of s' + 1 ≤ cost_of s
  step-cost _ _ _ (processes before after items left right tries db d at) =
      costs-replace before after (running items (left ++ d.item ∷ right) tries)
        (running items (left ++ right) tries) (omega (arith, length-middle left right d.item))
  step-cost _ _ _ (tries_again before after items left right tries i e db db' h) =
      costs-replace before after (running items (left ++ i ∷ right) (suc tries))
        (running items items tries) (omega (arith, length-middle left right i))
  step-cost _ _ _ (fails before after items left right i e db db' h) =
      costs_pos before after (running items (left ++ i ∷ right) zero)
        (omega (arith, length-middle left right i))
  step-cost _ _ _ (dies before after items left right tries i db db' h) =
      costs_pos before after (running items (left ++ i ∷ right) tries)
        (omega (arith, length-middle left right i))

  run-cost :
      (start : PushState) (log : List Event) (s : PushState)
      → Run start log s
      → length log + cost_of s ≤ cost_of start
  run-cost start _ _ begin = omega arith
  run-cost start _ _ (later {log = log} {event = e} {s = s} {s' = s'} run step) =
      omega (arith, run-cost start log s run, step-cost e s s' step)

  -- A workflow that goes on takes a step, whatever comes of the mutation.
  goes_on :
      (before after : List Running) (items right : List EntityWorkflowItem) (tries : ℕ)
      (i : EntityWorkflowItem) (db : Db) (r : Exit (Unit {0})) (db' : Db)
      → process i db ≡ (r, db')
      → (e : Event) × (s' : PushState) × Steps e
          (pushing (before ++ running items (i ∷ right) tries ∷ after) db)
          s'
  goes_on before after items right tries i db (ok tt) db' h = (
    some (record { item = i; before = db; after = db'; succeeded = h }),
    _,
    processes before after items [] right tries db
        (record { item = i; before = db; after = db'; succeeded = h }) refl,
  )
  goes_on before after items right (suc tries) i db (fail e) db' h =
      (none, _, tries_again before after items [] right tries i e db db' h)
  goes_on before after items right zero i db (fail e) db' h =
      (none, _, fails before after items [] right i e db db' h)
  goes_on before after items right tries i db die db' h =
      (none, _, dies before after items [] right tries i db db' h)

  finish_or_step :
      (ws : List Running) (db : Db)
      → All (λ w. rest_of w ≡ []) ws ⊎ Open ws
      → IsFinished (pushing ws db) ⊎ ((e : Event) × (s' : PushState) × Steps e (pushing ws db) s')
  finish_or_step ws db (inl f) = inl f
  finish_or_step ws db (inr o) = inr (
      rw o.at (
        goes_on o.before o.after o.items o.right o.tries o.item db (process o.item db).0
          (process o.item db).1 refl))

  -- How a push ended, or that it goes on.
  pub Ended : PushState → Type 0
  Ended (pushing ws db) = IsFinished (pushing ws db)
  Ended (failed e db) = Unit
  Ended (died db) = Unit

  Ended-or_step : (s : PushState) → Ended s ⊎ ((e : Event) × (s' : PushState) × Steps e s s')
  unfolding Ended
  Ended-or_step (pushing ws db) = finish_or_step ws db (Open-or_finished ws)
  Ended-or_step (failed e db) = inl tt
  Ended-or_step (died db) = inl tt

  -- In every interleaving, a push takes at most four steps for each of its mutations, and until it has
  -- succeeded, failed or died it can take one more: it ends.
  pub push_workflow-ends :
      (mutations : List Mutation) (db : Db) (log : List Event) (s : PushState)
      → Run (push_workflow mutations db) log s
      → (length log ≤ 4 * count (entity_workflows mutations))
        × (Ended s ⊎ ((e : Event) × (s' : PushState) × Steps e s s'))
  unfolding push_workflow
  push_workflow-ends mutations db log s run = (
    omega (
      arith,
      run-cost (push_workflow mutations db) log s run,
      costs-started (entity_workflows mutations),
    ),
    Ended-or_step s,
  )
