-- ===== src/Pco/Manager/Syncing.antt =====
-- `syncEntityType` of Planning Center, under `externalSyncEntity`, for an entity that has not
-- changed there.
use openfaith.Common.{
  ℕ, zero, suc, Bool, true, false, ◌≡◌, refl, List, Option, none, some, Bool-cases, inl, inr, Text,
}
use openfaith.Store.{ExternalLink, Db, ok, Exec, ◌>>=◌, pure, fails, Runtime}
use openfaith.Store.Effects.{Ensures, Ensures-bind, Ensures-pure, Ensures-dies}
use openfaith.Store.Keys.{LinkKey}
use openfaith.Links.Laws.{link_at}
use openfaith.Links.Stamp.{KeepsLink, KeepsLink-preorder}
use openfaith.Deletion.{mark_link, is_stale}
use openfaith.SyncEngine.{Callbacks, external_sync_entity}
use openfaith.SyncEngine.Stale.{external_sync-marks}
use openfaith.InternalManager.{internal_callbacks}
use openfaith.InternalManager.Links.{internal_callbacks-AreGentle}
use openfaith.Pco.{EntityClient, Page, Pco, pco, usable, get_entity_client, has_method}
use openfaith.Pco.Unchanged.{
  AllUnchanged, AreGentle, process_pco_data-stamp, Ensures-require_bind, Ensures-map_error,
}
use openfaith.Pco.Manager.{follow, sync_pages, sync_entity_type, manager}
use openfaith.Pco.Webhooks.Subscribing.{WebhookApi}

module _ (rt : Runtime) (org : Text) (k : LinkKey) (u : ℕ) (p : Pco) (callbacks : Callbacks)
    (g : AreGentle rt org k u p callbacks) where
  follow-stamp :
      (next : ℕ → Exec (Unit {0})) (o : Option ℕ)
      → ((n : ℕ) → Ensures (KeepsLink k u) (next n))
      → Ensures (KeepsLink k u) (follow p org next o)
  follow-stamp next none h = Ensures-pure (KeepsLink-preorder k u) tt
  follow-stamp next (some zero) h = Ensures-pure (KeepsLink-preorder k u) tt
  follow-stamp next (some (suc n)) h = h (suc n)

  sync_pages-stamp :
      (fuel : ℕ) (entity_type : Text) (method : ℕ → Option Page) (offset : ℕ)
      → ((o : ℕ) (page : Page) → method o ≡ some page → AllUnchanged rt org k u p page.response)
      → Ensures (KeepsLink k u) (sync_pages p org callbacks entity_type method fuel offset)
  unfolding sync_pages
  sync_pages-stamp zero entity_type method offset h = Ensures-dies (KeepsLink-preorder k u)
  sync_pages-stamp (suc fuel) entity_type method offset h =
      Ensures-require_bind (KeepsLink-preorder k u) _ (method offset) _ (λ page e.
        Ensures-bind (KeepsLink-preorder k u) _ _
          (Ensures-map_error _ _
            (process_pco_data-stamp rt org k u p callbacks g page.response false (h offset page e)))
          (λ _.
            follow-stamp _ page.next_offset (λ o. sync_pages-stamp fuel entity_type method o h)))

  -- The rest of an operation may use that the client is that of the entity type.
  usable_bind :
      (type : Text) (client : Option EntityClient) (rest : EntityClient → Exec (Unit {0}))
      → ((c : EntityClient) → client ≡ some c → Ensures (KeepsLink k u) (rest c))
      → Ensures (KeepsLink k u) (usable p type client >>= rest)
  unfolding usable ◌>>=◌ fails pure
  usable_bind type none rest h = record { at = (KeepsLink-preorder k u).reflexive }
  usable_bind type (some c) rest h = elim (Bool-cases (has_method c)) [
    | inl e ↦ rw e (record { at = (h c refl).at })
    | inr e ↦ rw e (record { at = (KeepsLink-preorder k u).reflexive })
  ]

  sync_entity_type-stamp :
      (fuel : ℕ) (entity_type : Text)
      → ((c : EntityClient) (method : ℕ → Option Page) (o : ℕ) (page : Page)
          → p.client entity_type ≡ some c
          → c.list ≡ some method
          → method o ≡ some page
          → AllUnchanged rt org k u p page.response)
      → Ensures (KeepsLink k u) (sync_entity_type p org fuel callbacks entity_type)
  unfolding sync_entity_type get_entity_client
  sync_entity_type-stamp fuel entity_type h =
      usable_bind entity_type (p.client entity_type) _ (λ c found.
        Ensures-require_bind (KeepsLink-preorder k u) _ c.list _ (λ method e.
          sync_pages-stamp fuel entity_type method 0 (λ o page. h c method o page found e)))

-- Suppose that all pages of an entity type at Planning Center agree with what a live link of the
-- type says of `updatedAt`, and that the link was last processed before now. Then a sync of the type
-- that succeeds, over the callbacks of the internal manager and however many pages it reads, leaves
-- the link as it is but soft-deletes it.
pub external_sync-deletes_unchanged :
    (rt : Runtime) (sort_distinct : List Text → List Text) (org : Text) (clock : Db → ℕ)
    (entity_first : Bool) (mk_entity_name : Text → Text) (p : Pco) (w : WebhookApi) (fuel : ℕ)
    (entity_type : Text) (db : Db) (k : LinkKey) (l : ExternalLink) (u : ℕ)
    → ((c : EntityClient) (method : ℕ → Option Page) (o : ℕ) (page : Page)
        → p.client entity_type ≡ some c
        → c.list ≡ some method
        → method o ≡ some page
        → AllUnchanged rt org k u p page.response)
    → link_at k db ≡ some l
    → l.updated_at ≡ some u
    → is_stale org pco entity_type (clock db) l ≡ true
    → (external_sync_entity rt org clock mk_entity_name
        (manager p org w fuel)
        (internal_callbacks rt sort_distinct org clock entity_first)
        entity_type
        db).0
      ≡ ok tt
    → (now : ℕ) × (link_at k
          (external_sync_entity rt org clock mk_entity_name
            (manager p org w fuel)
            (internal_callbacks rt sort_distinct org clock entity_first)
            entity_type
            db).1
        ≡ some (mark_link now l))
external_sync-deletes_unchanged rt sort_distinct org clock entity_first mk_entity_name p w fuel
      entity_type db k l u h e q s done =
    let callbacks = internal_callbacks rt sort_distinct org clock entity_first in
    let gentle = internal_callbacks-AreGentle rt sort_distinct org clock entity_first k u p in
    (
      _,
      external_sync-marks rt org clock mk_entity_name k u (manager p org w fuel) callbacks
          entity_type (sync_entity_type-stamp rt org k u p callbacks gentle fuel entity_type h) db l
          e q s done,
    )
