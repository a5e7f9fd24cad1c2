-- ===== src/Workflows/Webhook.antt =====
-- backend/workers/workflows/externalWebhookWorkflow.ts: a webhook, from its request to its events.
pub mod Laws
use openfaith.Common.{List, Text, lit}
use openfaith.Store.{
  Error, adapter_method_not_found, webhook_no_org_id, webhook_retrieve_org_id, webhook_processing,
  external_webhook, Exec, ◌>>=◌,
}
use openfaith.SyncEngine.{
  Values, AdapterManager, WebhookCallbacks, StoredWebhook, webhook_sync_entity, get_webhook_org_id,
}
use openfaith.Pco.Webhooks.{catch_tags}
use openfaith.Workflows.{activity}

-- The `catchTags` of 'GetWebhookOrgId'
abbrev pub org_error : Error → Error
org_error (webhook_no_org_id _) = external_webhook
org_error (webhook_retrieve_org_id _) = external_webhook
org_error e = e

-- The `catchTags` of 'ProcessExternalWebhook'
abbrev pub webhook_error : Error → Error
webhook_error (adapter_method_not_found _ _ _) = external_webhook
webhook_error (webhook_processing _) = external_webhook
webhook_error e = e

-- The token key of the first activity, which belongs to no organisation
abbrev pub webhook_token_key : Text
webhook_token_key = lit "webhook-token-key"

-- The services by their token key, and the stored webhooks.
module _ (manager : Text → AdapterManager) (callbacks : Text → WebhookCallbacks)
    (get_webhooks : Text → Exec (List StoredWebhook)) (headers : Values) (payload : Text) where
  -- 'GetWebhookOrgId'
  abbrev pub get_org_id : Exec Text
  get_org_id = activity (
      catch_tags org_error
        (get_webhook_org_id (manager webhook_token_key) get_webhooks headers payload))

  -- 'ProcessExternalWebhook'
  abbrev pub process_events : Text → Exec (Unit {0})
  process_events org_id =
      activity
        (catch_tags webhook_error (webhook_sync_entity (manager org_id) (callbacks org_id) payload))

  -- `ExternalWebhookWorkflow`
  unfoldable pub webhook_workflow : Exec (Unit {0})
  webhook_workflow = do org_id ← get_org_id; process_events org_id
