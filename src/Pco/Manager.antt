-- ===== src/Pco/Manager.antt =====
-- The operations of `PcoAdapterManagerLive`.
pub mod Deleting
pub mod Syncing
pub mod Pages
use openfaith.Common.{
  ℕ, zero, suc, Bool, true, false, List, [], ◌∷◌, Option, none, some, if◌then◌else◌, Text, lit,
}
use openfaith.Store.{
  Db, adapter_entity_not_found, adapter_fetch, adapter_transform, adapter_method_not_found, Exec,
  ◌>>=◌, ◌>>◌, pure, dies, no_such_element, api_error,
}
use openfaith.SyncEngine.{Callbacks, Values, AdapterManager}
use openfaith.Pco.{
  PcoEntity, Response, Page, Pco, pco, require, map_error, get_entity_client, normalize_response,
  process_pco_data,
}
use openfaith.Pco.Webhooks.{process_webhook, get_webhook_org_id}
use openfaith.Pco.Webhooks.Subscribing.{WebhookApi, subscribe_to_webhooks}

-- The response of a create or an update, with the internal id in the entity, so that the link that
-- is made is that of the internal entity.
abbrev pub with_entity_id : Text → Response → Response
with_entity_id id r = record r { data_rows = mark r.data_rows }
  where
    mark : List PcoEntity → List PcoEntity
    mark [] = []
    mark (e ∷ es) = record e { entity_id = some id } ∷ es

module _ (p : Pco) (org : Text) where
  -- `createEntity`
  unfoldable pub create_entity :
      Callbacks → (entity_type internal_id : Text) → Values → Exec (Unit {0})
  create_entity callbacks entity_type internal_id value = do
    client ← get_entity_client p entity_type
    method ← require (adapter_entity_not_found pco entity_type) client.create
    encoded ← require (adapter_transform pco entity_type) (p.encode entity_type value)
    response ← require (adapter_fetch pco entity_type (lit "create")) (method encoded)
    map_error (adapter_transform pco entity_type) (
        process_pco_data p callbacks org
          (normalize_response p (with_entity_id internal_id response)) true)

  -- `updateEntity`
  unfoldable pub update_entity :
      Callbacks → (entity_type external_id internal_id : Text) → Values → Exec (Unit {0})
  update_entity callbacks entity_type external_id internal_id value = do
    client ← get_entity_client p entity_type
    method ← require no_such_element client.update
    encoded ← require (adapter_transform pco entity_type) (p.encode_partial entity_type value)
    response ← require api_error (method external_id encoded)
    map_error (adapter_transform pco entity_type) (
        process_pco_data p callbacks org
          (normalize_response p (with_entity_id internal_id response)) false)

  abbrev confirm : Bool → Option (Unit {0})
  confirm true = some tt
  confirm false = none

  -- `deleteEntity`; the last call passes the internal id on.
  unfoldable pub delete_entity :
      (Text → Text → Exec (Unit {0}))
      → (entity_type external_id internal_id : Text) → Exec (Unit {0})
  delete_entity callback entity_type external_id internal_id = do
    client ← get_entity_client p entity_type
    method ← require (adapter_entity_not_found pco entity_type) client.delete
    require (adapter_fetch pco entity_type (lit "delete")) (confirm (method external_id))
    map_error (adapter_fetch pco entity_type (lit "delete")) (callback internal_id pco)

  -- An offset of 0 ends the stream as a missing one does.
  abbrev pub follow : (ℕ → Exec (Unit {0})) → Option ℕ → Exec (Unit {0})
  follow next none = pure tt
  follow next (some zero) = pure tt
  follow next (some (suc n)) = next (suc n)

  -- The pages of `syncEntityType`, from an offset on. The fuel bounds how many pages are read: a
  -- list that is longer never ends well here.
  sync_pages : Callbacks → Text → (ℕ → Option Page) → ℕ → ℕ → Exec (Unit {0})
  sync_pages callbacks entity_type method zero offset = dies
  sync_pages callbacks entity_type method (suc fuel) offset =
      let next = λ (o : ℕ). sync_pages callbacks entity_type method fuel o in
      (do
        page ← require (adapter_fetch pco entity_type (lit "list")) (method offset)
        map_error (adapter_transform pco entity_type)
            (process_pco_data p callbacks org (normalize_response p page.response) false)
        follow next page.next_offset)

  -- `syncEntityType`
  unfoldable pub sync_entity_type : ℕ → Callbacks → Text → Exec (Unit {0})
  unfolding sync_pages
  sync_entity_type fuel callbacks entity_type = do
    client ← get_entity_client p entity_type
    method ← require (adapter_method_not_found pco entity_type (lit "list")) client.list
    sync_pages callbacks entity_type method fuel 0

  -- `PcoAdapterManagerLive`
  abbrev pub manager : WebhookApi → ℕ → AdapterManager
  manager w fuel = record {
    adapter = pco;
    create_entity = create_entity;
    update_entity = update_entity;
    delete_entity = delete_entity;
    sync_entity_type = sync_entity_type fuel;
    process_webhook = process_webhook p org w.runtime;
    get_webhook_org_id = get_webhook_org_id w.runtime;
    subscribe_to_webhooks = subscribe_to_webhooks p org w.client w.url fuel;
  }
