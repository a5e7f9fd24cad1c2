-- ===== src/InternalManager.antt =====
-- The callbacks that backend/server/live/internalManagerLive.ts hands to an adapter.
pub mod Links
pub mod Webhooks
use openfaith.Common.{ℕ, Bool, ◌&&◌, List, [], map, Option, none, some, find, Text, lit, ◌===◌}
use openfaith.Sql.{select}
use openfaith.Store.{Entity, Db, Exec, ◌>>=◌, reads, Runtime}
use openfaith.Merge.{merge_entity}
use openfaith.Links.{process_external_links}
use openfaith.Entities.{process_entities}
use openfaith.Relationships.{process_relationships}
use openfaith.SyncEngine.{Callbacks, WebhookCallbacks, StoredWebhook, delete_callback}

-- Every call of `processExternalLinks` reads the time for itself.
unfoldable pub internal_callbacks :
    Runtime → (List Text → List Text) → Text → (Db → ℕ) → Bool → Callbacks
internal_callbacks rt sort_distinct org clock entity_first = record {
  process_entities = process_entities rt org;
  process_external_links = λ links force. do
    now ← reads clock
    process_external_links rt org entity_first now force links;
  process_relationships = process_relationships sort_distinct org;
}

-- What it hands to an adapter for the events of a webhook.
abbrev pub internal_webhook_callbacks :
    Runtime → (List Text → List Text) → Text → (Db → ℕ) → Bool → WebhookCallbacks
internal_webhook_callbacks rt sort_distinct org clock entity_first = record {
  delete_entity = delete_callback rt org clock;
  merge_entity = λ keep_id remove_id adapter. do
    now ← reads clock
    merge_entity rt org now keep_id remove_id adapter;
  process = internal_callbacks rt sort_distinct org clock entity_first;
}

-- A column of a row, which is NOT NULL.
column : Text → Entity → Text
column name e = elim (find (λ (c : Text × Text). c.0 === name) e.columns) [
  | none ↦ []
  | some c ↦ c.1
]

unfoldable pub adapter_webhooks_table : Text
adapter_webhooks_table = lit "adapterWebhooks"

-- The rows of adapterWebhooksTable for an adapter, of all organisations.
unfoldable pub webhooks_of : Text → Db → List StoredWebhook
unfolding column
webhooks_of adapter db =
    map
      (λ (e : Entity). record {
        authenticity_secret = column (lit "authenticitySecret") e;
        org_id = e.org_id;
      })
      (select
        (λ (e : Entity). e.table === adapter_webhooks_table && column (lit "adapter") e === adapter)
        db.entities)

-- `getWebhooks`
unfoldable pub get_webhooks : Text → Exec (List StoredWebhook)
get_webhooks adapter = reads (webhooks_of adapter)
