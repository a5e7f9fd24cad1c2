-- ===== src/Pco/Webhooks.antt =====
-- The webhooks of Planning Center: `getSyncEntityId`, `processWebhook`, `getWebhookOrgId` and
-- `subscribeToWebhooks` of adapters/pco/pcoAdapterManagerLive.ts, with the definitions of
-- adapters/pco/modules/people/pcoPersonEndpoints.ts.
pub mod Subscribing
pub mod Delivery
pub mod Getting
use openfaith.Common.{
  ℕ, Bool, true, false, ◌&&◌, List, [], ◌∷◌, Option, none, some, if◌then◌else◌, find, Text, lit,
  ◌===◌,
}
use openfaith.Store.{
  Error, adapter_entity_not_found, adapter_fetch, adapter_transform, adapter_method_not_found,
  no_such_element, entity_deletion, entity_merging, parse_error, webhook_retrieval,
  webhook_no_org_id, webhook_retrieve_org_id, webhook_processing, Exit, ok, fail, die, Exec, ◌>>=◌,
  ◌>>◌, pure, dies,
}
use openfaith.SyncEngine.{Callbacks, WebhookCallbacks, StoredWebhook, Values}
use openfaith.Pco.{
  PcoEntity, Response, EntityClient, Pco, pco, is_there, require, or_dies, map_error,
  get_entity_client, normalize_response, process_pco_data,
}

-- `WebhookOperation`
pub data Operation : Type 0 where
  upsert delete merge : Operation

-- A delivered event: `attributes.name` and `attributes.payload.data`.
pub record Event : Type 0 where
  pub name : Text
  pub data_row : PcoEntity

-- `personCreatedWebhook` and the others, in the order of the manifest
unfoldable pub webhook_operations : List (Text × Operation)
webhook_operations =
    (lit "people.v2.events.person.created", upsert)
    ∷ (lit "people.v2.events.person.updated", upsert)
    ∷ (lit "people.v2.events.person.destroyed", delete)
    ∷ (lit "people.v2.events.person_merger.created", merge)
    ∷ []

-- What the webhooks need besides the entities: the decoding of a payload, given as its JSON text, by
-- the schemas of the events; the hash of a text with a secret, in hexadecimal; and
-- `Buffer.from(text, 'hex')`.
pub record WebhookRuntime : Type 0 where
  pub decode_payload : Text → Option (List Event)
  pub sha256 : (secret body : Text) → Text
  pub from_hex : Text → List ℕ

abbrev pub catch_exit {ℓ} : {A : Type ℓ} → (Error → Error) → Exit A → Exit A
catch_exit f (ok a) = ok a
catch_exit f (fail e) = fail (f e)
catch_exit f die = die

-- `Effect.catchTags`, with handlers that fail
unfoldable pub catch_tags {ℓ} : {A : Type ℓ} → (Error → Error) → Exec A → Exec A
catch_tags f m db = (catch_exit f (m db).0, (m db).1)

-- The `catchTags` of `processWebhook`
abbrev pub processing_error : Error → Error
processing_error (adapter_entity_not_found _ _) = webhook_processing pco
processing_error (adapter_fetch _ _ _) = webhook_processing pco
processing_error (adapter_transform _ _) = webhook_processing pco
processing_error (entity_deletion _ _ _) = webhook_processing pco
processing_error (entity_merging _ _ _ _) = webhook_processing pco
processing_error parse_error = webhook_processing pco
processing_error e = e

-- The `catchTags` of `getWebhookOrgId`
abbrev pub org_id_error : Error → Error
org_id_error no_such_element = webhook_no_org_id pco
org_id_error (webhook_retrieval _) = webhook_retrieve_org_id pco
org_id_error e = e

-- `relationships.<key>.data.id`; a key or data that is missing is a TypeError.
abbrev pub related_id : Text → PcoEntity → Option Text
related_id key e = elim (find (λ (r : Text × Option Text). r.0 === key) e.relationships) [
  | none ↦ none
  | some r ↦ r.1
]

module _ (p : Pco) (org : Text) where
  -- The processing at the end of `getSyncEntityId`, and that of `entityAlt` before it
  unfoldable pub process_response : Callbacks → Text → Response → Exec (Unit {0})
  process_response callbacks entity_type response =
      map_error (adapter_transform pco entity_type)
        (process_pco_data p callbacks org (normalize_response p response) false)

  abbrev pub single : PcoEntity → Response
  single e = record { data_rows = e ∷ []; included = [] }

  -- `if (!('get' in entityClient) && entityAlt)`. The block does not return.
  process_alt : Callbacks → Text → Bool → Option PcoEntity → Exec (Unit {0})
  process_alt callbacks entity_type false (some alt) =
      process_response callbacks entity_type (single alt)
  process_alt callbacks entity_type false none = pure tt
  process_alt callbacks entity_type true alt = pure tt

  -- A fetch that fails falls back on `entityAlt`.
  fetched : Text → Option Response → Option PcoEntity → Exec Response
  fetched entity_type (some response) alt = pure response
  fetched entity_type none (some alt) = pure (single alt)
  fetched entity_type none none = require (adapter_fetch pco entity_type (lit "get")) none

  -- `getSyncEntityId`
  unfoldable pub sync_entity_id :
      Callbacks → (entity_type entity_id : Text) → Option PcoEntity → Exec (Unit {0})
  unfolding process_alt fetched
  sync_entity_id callbacks entity_type entity_id alt = do
    client ← get_entity_client p entity_type
    process_alt callbacks entity_type (is_there client.get) alt
    method ← require (adapter_method_not_found pco entity_type (lit "get")) client.get
    response ← fetched entity_type (method entity_id) alt
    process_response callbacks entity_type response

  module _ (wr : WebhookRuntime) where
    -- The switch on the operation of the event's definition
    run_operation : WebhookCallbacks → PcoEntity → Operation → Exec (Unit {0})
    run_operation callbacks e upsert = sync_entity_id callbacks.process e.type e.id (some e)
    run_operation callbacks e delete = callbacks.delete_entity e.id pco
    run_operation callbacks e merge = do
      keep_id ← or_dies (related_id (lit "person_to_keep") e)
      remove_id ← or_dies (related_id (lit "person_to_remove") e)
      callbacks.merge_entity keep_id remove_id pco

    operation_of : Text → Option (Text × Operation)
    operation_of name = find (λ (d : Text × Operation). d.0 === name) webhook_operations

    -- An event, with the definition of its name
    unfoldable pub process_event : WebhookCallbacks → Event → Exec (Unit {0})
    unfolding run_operation operation_of
    process_event callbacks event = do
      definition ← or_dies (operation_of event.name)
      run_operation callbacks event.data_row definition.1

    unfoldable pub process_events : WebhookCallbacks → List Event → Exec (Unit {0})
    process_events callbacks [] = pure tt
    process_events callbacks (e ∷ es) = do process_event callbacks e; process_events callbacks es

    -- `processWebhook`
    unfoldable pub process_webhook : WebhookCallbacks → Text → Exec (Unit {0})
    process_webhook callbacks payload = catch_tags processing_error (do
      events ← require parse_error (wr.decode_payload payload)
      process_events callbacks events)

-- The header that carries the hash
unfoldable pub authenticity : Text
authenticity = lit "x-pco-webhooks-authenticity"

module _ (wr : WebhookRuntime) where
  -- Equal buffers: `timingSafeEqual` compares buffers of one length.
  unfoldable pub is_signed : (hash body : Text) → StoredWebhook → Bool
  is_signed hash body webhook =
      wr.from_hex hash === wr.from_hex (wr.sha256 webhook.authenticity_secret body)

  -- `getWebhookOrgId`
  unfoldable pub get_webhook_org_id :
      (Text → Exec (List StoredWebhook)) → (headers : Values) → (payload : Text) → Exec Text
  get_webhook_org_id get_webhooks headers payload = catch_tags org_id_error (do
    header ←
        require (webhook_no_org_id pco) (find (λ (h : Text × Text). h.0 === authenticity) headers)
    webhooks ← get_webhooks pco
    webhook ← require no_such_element (find (is_signed header.1 payload) webhooks)
    pure webhook.org_id)
