-- ===== src/InternalManager/Webhooks.antt =====
-- The chains of a webhook, over the Planning Center adapter and the internal manager.
use openfaith.Common.{
  ℕ, Bool, ◌≡◌, refl, ◌⊎◌, inl, inr, true, false, List, some, Text, Memᴰ, All, find, find-cases,
  ◌===◌,
}
use openfaith.Store.{Db, webhook_no_org_id, ok, fail, ◌>>=◌, pure, fails, reads, Runtime}
use openfaith.SyncEngine.{Values, StoredWebhook, get_webhook_org_id}
use openfaith.InternalManager.{webhooks_of, get_webhooks}
use openfaith.Pco.{Pco, pco}
use openfaith.Pco.Webhooks.{
  authenticity, is_signed, catch_tags, get_webhook_org_id as pco_get_webhook_org_id,
}
use openfaith.Pco.Webhooks.Subscribing.{WebhookApi}
use openfaith.Pco.Manager.{manager}

module _ (rt : Runtime) (sort_distinct : List Text → List Text) (org : Text) (clock : Db → ℕ)
    (entity_first : Bool) (p : Pco) (w : WebhookApi) (fuel : ℕ) where
  -- Suppose that a request has the header. Then `getWebhookOrgId` gives the organisation of a stored
  -- webhook of Planning Center with whose secret the payload has the hash of the header, or there is
  -- no such webhook, and it fails with the error that there is no organisation. The database stays
  -- the same.
  pub get_webhook_org_id-cases :
      (headers : Values) (payload : Text) (header : Text × Text) (db : Db)
      → find (λ (h : Text × Text). h.0 === authenticity) headers ≡ some header
      → let result = get_webhook_org_id (manager p org w fuel) get_webhooks headers payload db in
        ((stored : StoredWebhook) × Memᴰ stored (webhooks_of pco db)
          × (is_signed w.runtime header.1 payload stored ≡ true)
          × (result ≡ (ok stored.org_id, db)))
        ⊎ (All (λ stored. is_signed w.runtime header.1 payload stored ≡ false) (webhooks_of pco db)
            × (result ≡ (fail (webhook_no_org_id pco), db)))
  unfolding get_webhook_org_id pco_get_webhook_org_id get_webhooks ◌>>=◌ reads pure fails catch_tags
  get_webhook_org_id-cases headers payload header db h =
      elim (find-cases (is_signed w.runtime header.1 payload) (webhooks_of pco db)) [
        | inl (stored, m, s, f) ↦ inl (stored, m, s, rw (h, f) refl)
        | inr (unsigned, f) ↦ inr (unsigned, rw (h, f) refl)
      ]
