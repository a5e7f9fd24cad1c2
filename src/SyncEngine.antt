-- ===== src/SyncEngine.antt =====
-- adapters/adapter-core/chains/syncEngine.chain.ts over the two services that it joins: the adapter
-- manager of an external system, and the internal manager of this library.
pub mod Stale
pub mod Mutations
use openfaith.Common.{ℕ, Bool, true, false, List, Option, none, some, Text}
use openfaith.Store.{ExternalLink, Entity, Metadata, Db, Exec, ◌>>=◌, ◌>>◌, pure, reads, Runtime}
use openfaith.Links.{ExternalLinkInput, ProcessedLinks, process_external_links}
use openfaith.Deletion.{delete_entity, get_external_link, detect_and_mark_deleted}

pub record RelationshipInput : Type 0 where
  pub source_entity_id : Text
  pub target_entity_id : Text
  pub source_entity_type_tag : Text
  pub target_entity_type_tag : Text
  pub relationship_type : Text
  pub created_at : ℕ
  pub created_by : Option Text
  pub deleted_at : Option ℕ
  pub deleted_by : Option Text
  pub updated_at : Option ℕ
  pub updated_by : Option Text
  pub metadata : Option Metadata

-- What the internal manager hands to an adapter.
pub record Callbacks : Type 0 where
  pub process_entities : List Entity → Exec (Unit {0})
  pub process_external_links : List ExternalLinkInput → Bool → Exec ProcessedLinks
  pub process_relationships : List RelationshipInput → Exec (Unit {0})

-- What it hands to an adapter for the events of a webhook.
pub record WebhookCallbacks : Type 0 where
  pub delete_entity : (external_id adapter : Text) → Exec (Unit {0})
  pub merge_entity : (keep_id remove_id adapter : Text) → Exec (Unit {0})
  pub process : Callbacks

-- A stored webhook, as far as `getWebhooks` reads it.
pub record StoredWebhook : Type 0 where
  pub authenticity_secret : Text
  pub org_id : Text

abbrev pub Values : Type 0
Values = List (Text × Text)

-- The operations of an adapter manager that the chain calls.
pub record AdapterManager : Type 0 where
  pub adapter : Text
  pub create_entity : Callbacks → (entity_type internal_id : Text) → Values → Exec (Unit {0})
  pub update_entity :
      Callbacks → (entity_type external_id internal_id : Text) → Values → Exec (Unit {0})
  pub delete_entity :
      (Text → Text → Exec (Unit {0}))
      → (entity_type external_id internal_id : Text) → Exec (Unit {0})
  pub sync_entity_type : Callbacks → Text → Exec (Unit {0})
  pub process_webhook : WebhookCallbacks → Text → Exec (Unit {0})
  pub get_webhook_org_id :
      (Text → Exec (List StoredWebhook)) → (headers : Values) → (payload : Text) → Exec Text
  pub subscribe_to_webhooks : Callbacks → Exec (Unit {0})

pub data OpKind : Type 0 where
  insert update upsert delete : OpKind

-- `CRUDOp`; of its primary key the chain reads the first value.
pub record CrudOp : Type 0 where
  pub op : OpKind
  pub table_name : Text
  pub internal_id : Text
  pub value : Values

module _ (rt : Runtime) (org : Text) (clock : Db → ℕ) where
  -- `internalManager.deleteEntity`; every call reads the time for itself.
  abbrev pub delete_callback : Text → Text → Exec (Unit {0})
  delete_callback external_id adapter = do
    now ← reads clock
    delete_entity rt org now external_id adapter

  module _ (mk_entity_name : Text → Text) (manager : AdapterManager) (callbacks : Callbacks) where
    -- `externalSyncEntity`
    unfoldable pub external_sync_entity : Text → Exec (Unit {0})
    external_sync_entity entity_type = do
      start ← reads clock
      manager.sync_entity_type callbacks entity_type
      now ← reads clock
      stale ← detect_and_mark_deleted org now manager.adapter entity_type start
      pure tt

    -- `subscribeToWebhooks`
    unfoldable pub subscribe_to_webhooks : Exec (Unit {0})
    subscribe_to_webhooks = manager.subscribe_to_webhooks callbacks

    push_values : Text → Text → Values → Option ExternalLink → Exec (Unit {0})
    push_values entity_type internal_id value none =
        manager.create_entity callbacks entity_type internal_id value
    push_values entity_type internal_id value (some link) =
        manager.update_entity callbacks entity_type link.external_id internal_id value

    push_delete : Text → Text → Option ExternalLink → Exec (Unit {0})
    push_delete entity_type internal_id none = pure tt
    push_delete entity_type internal_id (some link) =
        manager.delete_entity delete_callback entity_type link.external_id internal_id

    abbrev is_delete : OpKind → Bool
    is_delete delete = true
    is_delete _ = false

    -- `processMutation`
    unfoldable pub process_mutation : CrudOp → Exec (Unit {0})
    unfolding push_values push_delete
    process_mutation op = do
      link ← get_external_link org op.internal_id manager.adapter
      elim (is_delete op.op) [
        | true ↦ push_delete (mk_entity_name op.table_name) op.internal_id link
        | false ↦ push_values (mk_entity_name op.table_name) op.internal_id op.value link
      ]

-- `webhookSyncEntity`
unfoldable pub webhook_sync_entity : AdapterManager → WebhookCallbacks → Text → Exec (Unit {0})
webhook_sync_entity manager callbacks payload = manager.process_webhook callbacks payload

-- `getWebhookOrgId`
unfoldable pub get_webhook_org_id :
    AdapterManager → (Text → Exec (List StoredWebhook)) → Values → Text → Exec Text
get_webhook_org_id manager get_webhooks headers payload =
    manager.get_webhook_org_id get_webhooks headers payload
