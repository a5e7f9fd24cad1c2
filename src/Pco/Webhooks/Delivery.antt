-- ===== src/Pco/Webhooks/Delivery.antt =====
-- `getSyncEntityId` and `processWebhook`: the entities that cannot be fetched, and the failures.
use openfaith.Common.{
  Bool, true, false, ◌≡◌, refl, ◌⊎◌, inl, inr, List, [], ◌∷◌, Option, none, some, Bool-cases, Text,
  lit, ◌===◌,
}
use openfaith.Store.{
  Db, Error, adapter_fetch, adapter_method_not_found, Exit, ok, fail, die, Exec, ◌>>=◌, pure,
  webhook_processing, parse_error,
}
use openfaith.Store.Failures.{
  FailsWith, failure_rules, FailsWith-fails, FailsWith-bind, fail_injective,
}
use openfaith.SyncEngine.{Callbacks, WebhookCallbacks}
use openfaith.Pco.{
  PcoEntity, Response, EntityClient, Pco, pco, has_method, map_exit, map_error, require, or_dies,
  usable, get_entity_client,
}
use openfaith.Pco.Webhooks.{
  Operation, upsert, delete, merge, Event, WebhookRuntime, catch_exit, catch_tags, processing_error,
  process_response, single, process_alt, fetched, sync_entity_id, run_operation, operation_of,
  process_event, process_events, process_webhook, webhook_operations,
}

-- What the workflow of a webhook handles.
abbrev pub IsReported : Error → Type 0
IsReported e =
    (e ≡ webhook_processing pco)
    ⊎ ((entity_type : Text) × (e ≡ adapter_method_not_found pco entity_type (lit "get")))

-- A failure that is reported after the handlers of `processWebhook`.
abbrev pub IsHandled : Error → Type 0
IsHandled e = IsReported (processing_error e)

require-IsHandled {ℓ} :
    {A : Type ℓ} (e : Error) (a : Option A) → IsHandled e → FailsWith IsHandled (require e a)
require-IsHandled e none h = FailsWith-fails e h
require-IsHandled e (some a) h = search failure_rules

or_dies-FailsWith {ℓ} : {A : Type ℓ} (a : Option A) → FailsWith IsHandled (or_dies a)
or_dies-FailsWith none = search failure_rules
or_dies-FailsWith (some a) = search failure_rules

map_exit-IsHandled {ℓ} :
    {A : Type ℓ} (t : Error) (r : Exit A) (e : Error)
    → IsHandled t
    → map_exit t r ≡ fail e
    → IsHandled e
map_exit-IsHandled t (ok a) e h m = cc
map_exit-IsHandled {A = A} t (fail x) e h m = rw (← fail_injective A t e m) h
map_exit-IsHandled t die e h m = cc

map_error-IsHandled {ℓ} :
    {A : Type ℓ} (t : Error) (m : Exec A) → IsHandled t → FailsWith IsHandled (map_error t m)
unfolding map_error
map_error-IsHandled t m h = record { at = λ db e. map_exit-IsHandled t (m db).0 e h }

catch_exit-IsReported {ℓ} :
    {A : Type ℓ} (r : Exit A) (e : Error)
    → ((e' : Error) → r ≡ fail e' → IsHandled e')
    → catch_exit processing_error r ≡ fail e
    → IsReported e
catch_exit-IsReported (ok a) e h m = cc
catch_exit-IsReported {A = A} (fail x) e h m =
    rw (← fail_injective A (processing_error x) e m) (h x refl)
catch_exit-IsReported die e h m = cc

module _ (p : Pco) (org : Text) where
  usable-IsHandled :
      (type : Text) (client : Option EntityClient) → FailsWith IsHandled (usable p type client)
  unfolding usable
  usable-IsHandled type none = FailsWith-fails _ (inl refl)
  usable-IsHandled type (some c) = elim (Bool-cases (has_method c)) [
    | inl e ↦ rw e (search failure_rules)
    | inr e ↦ rw e (FailsWith-fails _ (inl refl))
  ]

  process_response-IsHandled :
      (callbacks : Callbacks) (type : Text) (r : Response)
      → FailsWith IsHandled (process_response p org callbacks type r)
  unfolding process_response
  process_response-IsHandled callbacks type r = map_error-IsHandled _ _ (inl refl)

  process_alt-IsHandled :
      (callbacks : Callbacks) (type : Text) (b : Bool) (alt : Option PcoEntity)
      → FailsWith IsHandled (process_alt p org callbacks type b alt)
  unfolding process_alt
  process_alt-IsHandled callbacks type false (some alt) =
      process_response-IsHandled callbacks type (single p org alt)
  process_alt-IsHandled callbacks type false none = search failure_rules
  process_alt-IsHandled callbacks type true alt = search failure_rules

  fetched-IsHandled :
      (type : Text) (r : Option Response) (alt : Option PcoEntity)
      → FailsWith IsHandled (fetched p org type r alt)
  unfolding fetched
  fetched-IsHandled type (some r) alt = search failure_rules
  fetched-IsHandled type none (some alt) = search failure_rules
  fetched-IsHandled type none none =
      require-IsHandled (adapter_fetch pco type (lit "get")) none (inl refl)

  sync_entity_id-IsHandled :
      (callbacks : Callbacks) (type id : Text) (alt : Option PcoEntity)
      → FailsWith IsHandled (sync_entity_id p org callbacks type id alt)
  unfolding sync_entity_id get_entity_client
  sync_entity_id-IsHandled callbacks type id alt =
      FailsWith-bind _ _ (usable-IsHandled type (p.client type)) (λ c.
        FailsWith-bind _ _ (process_alt-IsHandled callbacks type _ alt) (λ _.
          FailsWith-bind _ _ (require-IsHandled _ c.get (inr (type, refl))) (λ get.
            FailsWith-bind _ _ (fetched-IsHandled type (get id) alt)
              (process_response-IsHandled callbacks type))))

  module _ (wr : WebhookRuntime) (callbacks : WebhookCallbacks)
      (deletes : (id adapter : Text) → FailsWith IsHandled (callbacks.delete_entity id adapter))
      (merges : (keep_id remove_id adapter : Text)
        → FailsWith IsHandled (callbacks.merge_entity keep_id remove_id adapter)) where
    run_operation-IsHandled :
        (e : PcoEntity) (operation : Operation)
        → FailsWith IsHandled (run_operation p org wr callbacks e operation)
    unfolding run_operation
    run_operation-IsHandled e upsert = sync_entity_id-IsHandled callbacks.process _ _ _
    run_operation-IsHandled e delete = deletes e.id pco
    run_operation-IsHandled e merge = search (failure_rules, or_dies-FailsWith, merges)

    process_event-IsHandled : (e : Event) → FailsWith IsHandled (process_event p org wr callbacks e)
    unfolding process_event
    process_event-IsHandled e =
        FailsWith-bind _ _ (or_dies-FailsWith _) (λ d. run_operation-IsHandled e.data_row d.1)

    process_events-IsHandled :
        (events : List Event) → FailsWith IsHandled (process_events p org wr callbacks events)
    unfolding process_events
    process_events-IsHandled [] = search failure_rules
    process_events-IsHandled (e ∷ es) =
        FailsWith-bind _ _ (process_event-IsHandled e) (λ _. process_events-IsHandled es)

    -- Every failure of `processWebhook` is one that the workflow handles, as far as the deletes and
    -- merges that it is given fail with errors that its handlers know.
    pub process_webhook-IsReported :
        (payload : Text) → FailsWith IsReported (process_webhook p org wr callbacks payload)
    unfolding process_webhook catch_tags
    process_webhook-IsReported payload =
        let inner : FailsWith IsHandled (
            require parse_error (wr.decode_payload payload) >>= λ events.
            process_events p org wr callbacks events) =
          FailsWith-bind _ _ (require-IsHandled _ (wr.decode_payload payload) (inl refl))
            process_events-IsHandled in
        record { at = λ db e. catch_exit-IsReported _ e (inner.at db) }

-- One event of a destroyed person is a delete by its id.
pub process_webhook-destroyed :
    (p : Pco) (org : Text) (wr : WebhookRuntime) (callbacks : WebhookCallbacks) (payload : Text)
    (event : Event) (db : Db)
    → wr.decode_payload payload ≡ some (event ∷ [])
    → event.name ≡ lit "people.v2.events.person.destroyed"
    → (callbacks.delete_entity event.data_row.id pco db).0 ≡ ok tt
    → process_webhook p org wr callbacks payload db
      ≡ (ok tt, (callbacks.delete_entity event.data_row.id pco db).1)
unfolding process_webhook process_events process_event run_operation operation_of ◌>>=◌ pure
    catch_tags ◌===◌ lit webhook_operations
process_webhook-destroyed p org wr callbacks payload event db d n done = rw (d, n, done) refl
