-- ===== src/Workflows/Push/Laws.antt =====
-- What a push that succeeds has done: backend/workers/workflows/externalPushWorkflow.ts
-- and externalPushEntityWorkflow.ts.
use openfaith.Common.{
  ℕ, suc, ◌≡◌, refl, ap, ◌∙◌, List, [], ◌∷◌, ◌++◌, map, Option, none, some, ◌⊎◌, inl, inr, All,
  Memᴰ, Text,
}
use openfaith.Workflows.Push.Replaced.{All-replace, map-replace, Mem-removed}
use openfaith.Store.{Db, Runtime}
use openfaith.SyncEngine.{AdapterManager, Callbacks}
use openfaith.Mutations.{EntityWorkflowItem, Mutation, entity_workflows}
use openfaith.Workflows.Push.{
  Running, running, PushState, pushing, failed, died, push_entity_workflow, push_workflow, Done,
  PushStep, processes, tries_again, fails, dies, PushRun, begin, later,
}

abbrev pub items_of : Running → List EntityWorkflowItem
items_of (running items rest tries) = items

abbrev pub rest_of : Running → List EntityWorkflowItem
rest_of (running items rest tries) = rest

-- All workflows of the entities have ended with success.
abbrev pub IsFinished : PushState → Type 0
IsFinished (pushing ws db) = All (λ w. rest_of w ≡ []) ws
IsFinished (failed e db) = ⊥
IsFinished (died db) = ⊥

module _ (rt : Runtime) (clock : Db → ℕ) (mk_entity_name : Text → Text) (manager : AdapterManager)
    (callbacks : Callbacks) (token_key : Text) where
  abbrev Event : Type 0
  Event = Option (Done rt clock mk_entity_name manager callbacks token_key)

  abbrev Run : PushState → List Event → PushState → Type 0
  Run start log s = PushRun rt clock mk_entity_name manager callbacks token_key start log s

  -- The item was processed with success in one of the steps.
  abbrev pub IsProcessed : List Event → EntityWorkflowItem → Type 0
  IsProcessed log i =
      (d : Done rt clock mk_entity_name manager callbacks token_key) × Memᴰ (some d) log
      × (d.item ≡ i)

  -- An item is still to be processed, or has been.
  abbrev IsCovered : List Event → List EntityWorkflowItem → EntityWorkflowItem → Type 0
  IsCovered log rest i = Memᴰ i rest ⊎ IsProcessed log i

  abbrev Covers : List Event → Running → Type 0
  Covers log (running items rest tries) = All (IsCovered log rest) items

  All-weaken :
      (P Q : EntityWorkflowItem → Type 0)
      → ((i : EntityWorkflowItem) → P i → Q i)
      → (items : List EntityWorkflowItem) → All P items
      → All Q items
  All-weaken P Q f [] h = tt
  All-weaken P Q f (i ∷ items) (h, hs) = (f i h, All-weaken P Q f items hs)

  All-Mem :
      (items rest : List EntityWorkflowItem)
      → ((i : EntityWorkflowItem) → Memᴰ i items → Memᴰ i rest)
      → All (λ i. Memᴰ i rest) items
  All-Mem [] rest f = tt
  All-Mem (i ∷ items) rest f = (f i (Memᴰ.head refl), All-Mem items rest (λ j m. f j (Memᴰ.tail m)))

  Covers-new :
      (log : List Event) (items : List EntityWorkflowItem) (tries : ℕ)
      → Covers log (running items items tries)
  Covers-new log items tries =
      All-weaken (λ i. Memᴰ i items) (IsCovered log items) (λ i m. inl m) items
        (All-Mem items items (λ i m. m))

  IsCovered-later :
      (log : List Event) (e : Event) (rest : List EntityWorkflowItem) (i : EntityWorkflowItem)
      → IsCovered log rest i
      → IsCovered (e ∷ log) rest i
  IsCovered-later log e rest i (inl m) = inl m
  IsCovered-later log e rest i (inr (d, m, q)) = inr (d, Memᴰ.tail m, q)

  Covers-later : (log : List Event) (e : Event) (w : Running) → Covers log w → Covers (e ∷ log) w
  Covers-later log e (running items rest tries) h =
      All-weaken (IsCovered log rest) (IsCovered (e ∷ log) rest) (IsCovered-later log e rest) items
        h

  Covers-processed :
      (log : List Event) (d : Done rt clock mk_entity_name manager callbacks token_key)
      (items left right : List EntityWorkflowItem) (tries : ℕ)
      → Covers log (running items (left ++ d.item ∷ right) tries)
      → Covers (some d ∷ log) (running items (left ++ right) tries)
  Covers-processed log d items left right tries h =
      All-weaken (IsCovered log (left ++ d.item ∷ right)) (IsCovered (some d ∷ log) (left ++ right))
        one items h
    where
      removed :
          (i : EntityWorkflowItem)
          → (d.item ≡ i) ⊎ Memᴰ i (left ++ right)
          → IsCovered (some d ∷ log) (left ++ right) i
      removed i (inl q) = inr (d, Memᴰ.head refl, q)
      removed i (inr m) = inl m

      one :
          (i : EntityWorkflowItem)
          → IsCovered log (left ++ d.item ∷ right) i
          → IsCovered (some d ∷ log) (left ++ right) i
      one i (inl m) = removed i (Mem-removed d.item i left right m)
      one i (inr (d', m, q)) = inr (d', Memᴰ.tail m, q)

  -- The workflows are those that started, and cover their items.
  abbrev Inv : List (List EntityWorkflowItem) → List Event → PushState → Type 0
  Inv all log (pushing ws db) = (map items_of ws ≡ all) × All (Covers log) ws
  Inv all log (failed e db) = Unit
  Inv all log (died db) = Unit

  step-Inv :
      (all : List (List EntityWorkflowItem)) (log : List Event) (e : Event) (s s' : PushState)
      → PushStep rt clock mk_entity_name manager callbacks token_key e s s'
      → Inv all log s
      → Inv all (e ∷ log) s'
  step-Inv all log _ _ _ (processes before after items left right tries db d at) (q, h) = (
    map-replace items_of before after (running items (left ++ right) tries)
          (running items (left ++ d.item ∷ right) tries) refl
        ∙ q,
    All-replace (Covers log) (Covers (some d ∷ log)) before after
        (running items (left ++ d.item ∷ right) tries) (running items (left ++ right) tries)
        (Covers-later log (some d)) (Covers-processed log d items left right tries) h,
  )
  step-Inv all log _ _ _ (tries_again before after items left right tries i e db db' f) (q, h) = (
    map-replace items_of before after (running items items tries)
          (running items (left ++ i ∷ right) (suc tries)) refl
        ∙ q,
    All-replace (Covers log) (Covers (none ∷ log)) before after
        (running items (left ++ i ∷ right) (suc tries)) (running items items tries)
        (Covers-later log none) (λ _. Covers-new (none ∷ log) items tries) h,
  )
  step-Inv all log _ _ _ (fails before after items left right i e db db' f) h = tt
  step-Inv all log _ _ _ (dies before after items left right tries i db db' f) h = tt

  run-Inv :
      (all : List (List EntityWorkflowItem)) (start : PushState)
      → Inv all [] start
      → (log : List Event) (s : PushState) → Run start log s
      → Inv all log s
  run-Inv all start h _ _ begin = h
  run-Inv all start h _ _ (later {log = log} {event = e} {s = s} {s' = s'} run step) =
      step-Inv all log e s s' step (run-Inv all start h log s run)

  abbrev workflows_of : List (Text × List EntityWorkflowItem) → List Running
  workflows_of ws = map (λ (w : Text × List EntityWorkflowItem). push_entity_workflow w.1) ws

  abbrev items_in : List (Text × List EntityWorkflowItem) → List (List EntityWorkflowItem)
  items_in ws = map (λ (w : Text × List EntityWorkflowItem). w.1) ws

  start-Inv :
      (ws : List (Text × List EntityWorkflowItem)) (db : Db)
      → Inv (items_in ws) [] (pushing (workflows_of ws) db)
  unfolding push_entity_workflow
  start-Inv [] db = (refl, tt)
  start-Inv ((name, items) ∷ ws) db =
      let (q, h) = start-Inv ws db in (ap (λ x. items ∷ x) q, (Covers-new [] items 3, h))

  IsCovered-end :
      (log : List Event) (rest : List EntityWorkflowItem) (i : EntityWorkflowItem)
      → rest ≡ []
      → IsCovered log rest i
      → IsProcessed log i
  IsCovered-end log (j ∷ rest) i q h = absurd (cc q)
  IsCovered-end log [] i q (inl m) = elim m [ ]
  IsCovered-end log [] i q (inr h) = h

  end-IsProcessed :
      (log : List Event) (ws : List Running)
      → All (λ w. rest_of w ≡ []) ws
      → All (Covers log) ws
      → All (λ items. All (IsProcessed log) items) (map items_of ws)
  end-IsProcessed log [] e h = tt
  end-IsProcessed log (running items rest tries ∷ ws) (q, e) (c, h) = (
    All-weaken (IsCovered log rest) (IsProcessed log) (λ i. IsCovered-end log rest i q) items c,
    end-IsProcessed log ws e h,
  )

  finished-IsProcessed :
      (all : List (List EntityWorkflowItem)) (log : List Event) (s : PushState)
      → IsFinished s
      → Inv all log s
      → All (λ items. All (IsProcessed log) items) all
  finished-IsProcessed all log (pushing ws db) e (q, h) = rw (← q) (end-IsProcessed log ws e h)
  finished-IsProcessed all log (failed x db) e h = absurd e
  finished-IsProcessed all log (died db) e h = absurd e

  -- Suppose that a push has run, in any interleaving of its mutations and with any attempts that failed,
  -- to where the workflows of all entities have ended with success. Then each mutation of each entity
  -- was processed with success in one of the steps.
  pub push_workflow-IsProcessed :
      (mutations : List Mutation) (db : Db) (log : List Event) (s : PushState)
      → Run (push_workflow mutations db) log s
      → IsFinished s
      → All
          (λ (items : List EntityWorkflowItem). All (IsProcessed log) items)
          (map (λ (w : Text × List EntityWorkflowItem). w.1) (entity_workflows mutations))
  unfolding push_workflow
  push_workflow-IsProcessed mutations db log s run e =
      let ws = entity_workflows mutations in
      finished-IsProcessed (items_in ws) log s e
        (run-Inv (items_in ws) (pushing (workflows_of ws) db) (start-Inv ws db) log s run)
