-- ===== src/SyncEngine/Mutations.antt =====
-- What `processMutation` does to the database, given what the adapter does.
use openfaith.Common.{ℕ, ◌≡◌, Option, none, some, Text}
use openfaith.Store.{ExternalLink, Db, Runtime}
use openfaith.Store.Effects.{IsPreorder, Ensures, effect_rules}
use openfaith.Deletion.{get_external_link}
use openfaith.SyncEngine.{
  AdapterManager, Callbacks, CrudOp, delete, delete_callback, push_delete, process_mutation,
}

module _ (rt : Runtime) (org : Text) (clock : Db → ℕ) (mk_entity_name : Text → Text)
    (manager : AdapterManager) (callbacks : Callbacks) {R : Db → Db → Type 0}
    (o : IsPreorder R) where
  push_delete-Ensures :
      (entity_type id : Text) (link : Option ExternalLink)
      → ((external_id : Text)
          → Ensures R
              (manager.delete_entity (delete_callback rt org clock) entity_type external_id id))
      → Ensures R (push_delete rt org clock mk_entity_name manager callbacks entity_type id link)
  unfolding push_delete
  push_delete-Ensures entity_type id none h = search (effect_rules, o)
  push_delete-Ensures entity_type id (some link) h = h link.external_id

  -- A delete changes the database no further than `deleteEntity` of the adapter does.
  pub process_mutation-delete :
      (op : CrudOp)
      → op.op ≡ delete
      → ((external_id : Text)
          → Ensures R (
              manager.delete_entity
                (delete_callback rt org clock)
                (mk_entity_name op.table_name)
                external_id
                op.internal_id))
      → Ensures R (process_mutation rt org clock mk_entity_name manager callbacks op)
  unfolding process_mutation get_external_link
  process_mutation-delete op d h =
      rw (d, process_mutation) (search (effect_rules, o, push_delete-Ensures, h))
