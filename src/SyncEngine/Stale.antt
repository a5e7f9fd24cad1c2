-- ===== src/SyncEngine/Stale.antt =====
-- `externalSyncEntity` over the Planning Center adapter: what becomes of an entity that has not
-- changed there.
use openfaith.Common.{ℕ, true, ◌≡◌, some, Text}
use openfaith.Store.{ExternalLink, Db, ok, Exec, ◌>>=◌, pure, reads, Runtime}
use openfaith.Store.Effects.{Ensures, bind-ok, bind-pure}
use openfaith.Store.Keys.{LinkKey}
use openfaith.Links.Laws.{link_at}
use openfaith.Links.Stamp.{KeepsLink}
use openfaith.Deletion.{mark_link, is_stale, detect_and_mark_deleted}
use openfaith.Deletion.Laws.{detect-stale}
use openfaith.SyncEngine.{AdapterManager, Callbacks, external_sync_entity}

-- A sync that leaves a link as it is.
module _ (rt : Runtime) (org : Text) (clock : Db → ℕ) (mk_entity_name : Text → Text) (k : LinkKey)
    (u : ℕ) where
  finish : (adapter entity_type : Text) → ℕ → Unit {0} → Exec (Unit {0})
  finish adapter entity_type start _ = do
    now ← reads clock
    stale ← detect_and_mark_deleted org now adapter entity_type start
    pure tt

  finish_lem :
      (adapter entity_type : Text) (start : ℕ) (db : Db)
      → (finish adapter entity_type start tt db).1
        ≡ (detect_and_mark_deleted org (clock db) adapter entity_type start db).1
  unfolding finish ◌>>=◌ reads
  finish_lem adapter entity_type start db =
      bind-pure (detect_and_mark_deleted org (clock db) adapter entity_type start) tt db

  -- If the sync of an adapter leaves a link as it is, the deletion that follows marks the link,
  -- where it is live, of the adapter and the entity type, and last processed before the sync.
  pub external_sync-marks :
      (manager : AdapterManager) (callbacks : Callbacks) (entity_type : Text)
      → Ensures (KeepsLink k u) (manager.sync_entity_type callbacks entity_type)
      → (db : Db) (l : ExternalLink) → link_at k db ≡ some l
      → l.updated_at ≡ some u
      → is_stale org manager.adapter entity_type (clock db) l ≡ true
      → (external_sync_entity rt org clock mk_entity_name manager callbacks entity_type db).0
        ≡ ok tt
      → link_at k
          (external_sync_entity rt org clock mk_entity_name manager callbacks entity_type db).1
        ≡ some (mark_link (clock (manager.sync_entity_type callbacks entity_type db).1) l)
  unfolding external_sync_entity ◌>>=◌ reads finish
  external_sync-marks manager callbacks entity_type h db l e q s done =
      let sync = manager.sync_entity_type callbacks entity_type in
      let (_, after_sync) =
        bind-ok sync (finish manager.adapter entity_type (clock db)) db tt done in
      rw (after_sync, finish_lem manager.adapter entity_type (clock db) (sync db).1)
        (detect-stale org manager.adapter entity_type (clock db) (clock (sync db).1) (sync db).1 k l
          (h.at db l e q) s)
