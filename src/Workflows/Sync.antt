-- ===== src/Workflows/Sync.antt =====
-- backend/workers/workflows/externalSyncWorkflow.ts and externalSyncEntityWorkflow.ts: the sync of all
-- entity types of an adapter.
use openfaith.Common.{
  ℕ, Bool, not, ◌&&◌, List, Option, none, some, if◌then◌else◌, filter_map, Text, lit, ◌===◌,
}
use openfaith.Store.{
  Db, Error, adapter_method_not_found, adapter_entity_not_found, adapter_fetch, adapter_transform,
  webhook_subscription, external_sync, external_sync_entity as sync_entity_failed, Exec, ◌>>◌,
  fails, Runtime,
}
use openfaith.SyncEngine.{AdapterManager, Callbacks, external_sync_entity, subscribe_to_webhooks}
use openfaith.Pco.Webhooks.{catch_tags}
use openfaith.Workflows.{activity, for_each}
use openfaith.Workflows.People.{map_user_to_person}

-- An entry of the entity manifest: its name, whether it has a list endpoint, and `skipSync`.
pub record ManifestEntity : Type 0 where
  pub entity : Text
  pub has_list : Bool
  pub skip_sync : Bool

abbrev syncable : ManifestEntity → Option Text
syncable e = if e.has_list && not e.skip_sync then some e.entity else none

-- `syncEntities`
unfoldable pub sync_entities : List ManifestEntity → List Text
sync_entities manifest = filter_map syncable manifest

-- The `catchTags` of the sync of an entity type
abbrev pub entity_error : (entity token_key : Text) → Error → Error
entity_error entity token_key (adapter_method_not_found _ _ _) = sync_entity_failed entity token_key
entity_error entity token_key (adapter_entity_not_found _ _) = sync_entity_failed entity token_key
entity_error entity token_key (adapter_fetch _ _ _) = sync_entity_failed entity token_key
entity_error entity token_key (adapter_transform _ _) = sync_entity_failed entity token_key
entity_error entity token_key e = e

-- The `catchTags` of the subscription
abbrev pub subscription_error : Error → Error
subscription_error (webhook_subscription _ _) = external_sync
subscription_error e = e

-- `Effect.mapError`
abbrev pub to_external_sync : Error → Error
to_external_sync e = external_sync

-- The services of an organisation, whose id is the token key.
module _ (rt : Runtime) (clock : Db → ℕ) (mk_entity_name : Text → Text)
    (manager : Text → AdapterManager) (callbacks : Text → Callbacks) where
  -- `ExternalSyncEntityWorkflow`
  unfoldable pub sync_entity_workflow : (token_key adapter entity : Text) → Exec (Unit {0})
  sync_entity_workflow token_key adapter entity =
      if adapter === lit "pco"
      then activity (
          catch_tags (entity_error entity token_key) (
            external_sync_entity rt token_key clock mk_entity_name (manager token_key)
              (callbacks token_key) entity))
      else fails (sync_entity_failed entity token_key)

  -- `ExternalSyncWorkflow`
  unfoldable pub sync_workflow :
      List ManifestEntity → (token_key adapter : Text) → (user_id : Option Text) → Exec (Unit {0})
  sync_workflow manifest token_key adapter user_id =
      if adapter === lit "pco"
      then (activity (
            catch_tags subscription_error (
              subscribe_to_webhooks rt token_key clock mk_entity_name (manager token_key)
                (callbacks token_key)))
          >> for_each
              (λ entity.
                catch_tags to_external_sync (sync_entity_workflow token_key adapter entity))
              (sync_entities manifest)
          >> activity (map_user_to_person clock token_key user_id))
      else fails external_sync
