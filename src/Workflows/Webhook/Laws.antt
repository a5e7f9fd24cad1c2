-- ===== src/Workflows/Webhook/Laws.antt =====
-- For whom a webhook is processed: backend/workers/workflows/externalWebhookWorkflow.ts over Planning
-- Center and the internal manager.
use openfaith.Common.{
  ℕ, Bool, true, false, ◌≡◌, ap, ◌⊎◌, inl, inr, List, Text, Memᴰ, All, find, ◌===◌, some,
}
use openfaith.Store.{
  Db, Error, external_webhook, webhook_no_org_id, Exit, ok, fail, Exec, resume, ◌>>=◌, Runtime,
}
use openfaith.SyncEngine.{
  Values, StoredWebhook, AdapterManager, WebhookCallbacks, get_webhook_org_id,
}
use openfaith.InternalManager.{internal_webhook_callbacks, webhooks_of, get_webhooks}
use openfaith.InternalManager.Webhooks.{get_webhook_org_id-cases}
use openfaith.Pco.{Pco, pco}
use openfaith.Pco.Webhooks.{authenticity, is_signed, catch_exit, catch_tags}
use openfaith.Pco.Webhooks.Subscribing.{WebhookApi}
use openfaith.Pco.Manager.{manager}
use openfaith.Workflows.Retry.{retry-ok, retry-fails}
use openfaith.Workflows.Webhook.{org_error, webhook_token_key, process_events, webhook_workflow}

abbrev caught : (Error → Error) → Exit Text × Db → Exit Text × Db
caught f r = (catch_exit f r.0, r.1)

module _ (rt : Runtime) (sort_distinct : List Text → List Text) (clock : Db → ℕ)
    (entity_first : Bool) (p : Pco) (w : WebhookApi) (fuel : ℕ) (headers : Values)
    (payload : Text) where
  -- The services of an organisation
  abbrev pub managers : Text → AdapterManager
  managers org = manager p org w fuel

  abbrev pub callbacks : Text → WebhookCallbacks
  callbacks org = internal_webhook_callbacks rt sort_distinct org clock entity_first

  abbrev asked : Exec Text
  asked = get_webhook_org_id (managers webhook_token_key) get_webhooks headers payload

  abbrev continued : Exit Text × Db → Exit (Unit {0}) × Db
  continued r = resume (process_events managers callbacks get_webhooks headers payload) r.0 r.1

  signed :
      (org : Text) (db : Db)
      → asked db ≡ (ok org, db)
      → webhook_workflow managers callbacks get_webhooks headers payload db
        ≡ process_events managers callbacks get_webhooks headers payload org db
  unfolding webhook_workflow ◌>>=◌ catch_tags
  signed org db e =
      ap continued (retry-ok (catch_tags org_error asked) db 3 org db (ap (caught org_error) e))

  unsigned :
      (db : Db)
      → asked db ≡ (fail (webhook_no_org_id pco), db)
      → webhook_workflow managers callbacks get_webhooks headers payload db
        ≡ (fail external_webhook, db)
  unfolding webhook_workflow ◌>>=◌ catch_tags
  unsigned db e =
      ap continued
        (retry-fails (catch_tags org_error asked) db 3 external_webhook (ap (caught org_error) e))

  -- Suppose that a request has the header with the hash. Then there is a stored webhook of Planning
  -- Center with whose secret the payload has that hash, and the workflow does what the processing of
  -- the events does for the organisation of this webhook; or there is none, and then the workflow fails
  -- after all attempts and the database stays the same.
  pub webhook_workflow-cases :
      (header : Text × Text) (db : Db)
      → find (λ (h : Text × Text). h.0 === authenticity) headers ≡ some header
      → let result = webhook_workflow managers callbacks get_webhooks headers payload db in
        ((stored : StoredWebhook) × Memᴰ stored (webhooks_of pco db)
          × (is_signed w.runtime header.1 payload stored ≡ true)
          × (result
              ≡ process_events managers callbacks get_webhooks headers payload stored.org_id db))
        ⊎ (All (λ stored. is_signed w.runtime header.1 payload stored ≡ false) (webhooks_of pco db)
            × (result ≡ (fail external_webhook, db)))
  webhook_workflow-cases header db h =
      elim (get_webhook_org_id-cases rt sort_distinct webhook_token_key clock entity_first p w fuel
        headers payload header db h) [
          | inl (stored, m, s, e) ↦ inl (stored, m, s, signed stored.org_id db e)
          | inr (none_signed, e) ↦ inr (none_signed, unsigned db e)
        ]
