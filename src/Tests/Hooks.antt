-- ===== src/Tests/Hooks.antt =====
-- The theorems on webhooks, on the example data.
use openfaith.Common.{true, false, ◌≡◌, refl, ◌⊎◌, [], ◌∷◌, Memᴰ, All, lit, ◌===◌, none, some}
use openfaith.Store.{webhook_no_org_id, external_webhook, Db, Exit, ok, fail}
use openfaith.SyncEngine.{Values, StoredWebhook, get_webhook_org_id}
use openfaith.InternalManager.{webhooks_of, adapter_webhooks_table, get_webhooks}
use openfaith.InternalManager.Webhooks.{get_webhook_org_id-cases}
use openfaith.Pco.{pco}
use openfaith.Pco.Webhooks.{sync_entity_id, authenticity, is_signed}
use openfaith.Pco.Manager.{manager}
use openfaith.Workflows.Webhook.{process_events, webhook_workflow}
use openfaith.Workflows.Webhook.Laws.{
  managers, callbacks as webhook_callbacks, webhook_workflow-cases,
}
use openfaith.Tests.Sync.{callbacks}
use openfaith.Pco.Webhooks.Getting.{sync_entity_id-never}
use openfaith.Tests.{
  pco_person, people_client, person, org, runtime, db, webhook_api, planning_center,
}

-- The tables with a webhook whose secret is s.
abbrev hooked : Db
unfolding adapter_webhooks_table pco lit
hooked = record db {
  entities =
      record {
        table = adapter_webhooks_table;
        tag = [];
        id = b'h' ∷ [];
        org_id = org;
        custom_fields = [];
        deleted_at = none;
        deleted_by = none;
        columns = (lit "adapter", pco) ∷ (lit "authenticitySecret", b's' ∷ []) ∷ [];
      }
      ∷ [];
}

abbrev headers : Values
unfolding authenticity lit
headers = (authenticity, b's' ∷ b'z' ∷ []) ∷ []

get_webhook_org_id-cases_example :
    ((stored : StoredWebhook) × Memᴰ stored (webhooks_of pco hooked)
      × (is_signed webhook_api.runtime (b's' ∷ b'z' ∷ []) (b'z' ∷ []) stored ≡ true)
      × (get_webhook_org_id
            (manager planning_center org webhook_api 1)
            get_webhooks
            headers
            (b'z' ∷ [])
            hooked
          ≡ (ok stored.org_id, hooked)))
    ⊎ (All
          (λ stored. is_signed webhook_api.runtime (b's' ∷ b'z' ∷ []) (b'z' ∷ []) stored ≡ false)
          (webhooks_of pco hooked)
        × (get_webhook_org_id
              (manager planning_center org webhook_api 1)
              get_webhooks
              headers
              (b'z' ∷ [])
              hooked
            ≡ (fail (webhook_no_org_id pco), hooked)))
unfolding authenticity lit ◌===◌
get_webhook_org_id-cases_example =
    get_webhook_org_id-cases runtime (λ types. types) org (λ _. 9) true planning_center webhook_api
      1 headers (b'z' ∷ []) (authenticity, b's' ∷ b'z' ∷ []) hooked refl

abbrev asked : Exit (Unit {0}) × Db
asked =
    webhook_workflow
      (managers runtime (λ types. types) (λ _. 9) true planning_center webhook_api 1 headers
        (b'z' ∷ []))
      (webhook_callbacks runtime (λ types. types) (λ _. 9) true planning_center webhook_api 1
        headers (b'z' ∷ []))
      get_webhooks headers (b'z' ∷ []) hooked

webhook_workflow-cases_example :
    ((stored : StoredWebhook) × Memᴰ stored (webhooks_of pco hooked)
      × (is_signed webhook_api.runtime (b's' ∷ b'z' ∷ []) (b'z' ∷ []) stored ≡ true)
      × (asked
          ≡ process_events
              (managers runtime
                (λ types. types)
                (λ _. 9)
                true
                planning_center
                webhook_api
                1
                headers
                (b'z' ∷ []))
              (webhook_callbacks runtime
                (λ types. types)
                (λ _. 9)
                true
                planning_center
                webhook_api
                1
                headers
                (b'z' ∷ []))
              get_webhooks
              headers
              (b'z' ∷ [])
              stored.org_id
              hooked))
    ⊎ (All
          (λ stored. is_signed webhook_api.runtime (b's' ∷ b'z' ∷ []) (b'z' ∷ []) stored ≡ false)
          (webhooks_of pco hooked)
        × (asked ≡ (fail external_webhook, hooked)))
unfolding authenticity lit ◌===◌
webhook_workflow-cases_example =
    webhook_workflow-cases runtime (λ types. types) (λ _. 9) true planning_center webhook_api 1
      headers (b'z' ∷ []) (authenticity, b's' ∷ b'z' ∷ []) hooked refl

sync_entity_id-never_example : ¬ (
    (sync_entity_id planning_center org callbacks person (b'x' ∷ []) (some pco_person) db).0
    ≡ ok tt)
sync_entity_id-never_example =
    sync_entity_id-never planning_center org callbacks person (b'x' ∷ []) (some pco_person)
      people_client db refl refl
