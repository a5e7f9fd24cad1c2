-- ===== src/Pco/Manager/Deleting.antt =====
-- A delete that is pushed to Planning Center: `processMutation` of the sync engine over `deleteEntity`
-- of the adapter and `deleteEntity` of the internal manager.
use openfaith.Common.{ℕ, ◌≡◌, refl, ◌∙◌, Option, none, some, Bool-cases, inl, inr, Text}
use openfaith.Store.{Db, ◌>>=◌, reads, Runtime}
use openfaith.Deletion.Entities.{found_link, delete_entity-missing}
use openfaith.SyncEngine.{Callbacks, CrudOp, delete, delete_callback, process_mutation}
use openfaith.SyncEngine.Mutations.{process_mutation-delete}
use openfaith.Pco.{EntityClient, Pco, pco, usable, get_entity_client, has_method}
use openfaith.Store.Effects.{IsPreorder, Ensures, effect_rules}
use openfaith.Pco.Unchanged.{Ensures-require, Ensures-map_error}
use openfaith.Pco.Manager.{delete_entity as pco_delete_entity, manager}
use openfaith.Pco.Webhooks.Subscribing.{WebhookApi}

-- Nothing changes, where no live link has the external id `id`.
abbrev pub Unmoved : Runtime → Text → Text → Db → Db → Type 0
Unmoved rt org id db db' = found_link rt org id pco db ≡ none → db' ≡ db

module _ (rt : Runtime) (org : Text) (clock : Db → ℕ) (id : Text) where
  Unmoved-preorder : IsPreorder (Unmoved rt org id)
  Unmoved-preorder = record {
    reflexive = λ db h. refl;
    transitive = λ a b c h h' n. h' (rw (h n) n) ∙ h n;
  }

  callback-Unmoved : Ensures (Unmoved rt org id) (delete_callback rt org clock id pco)
  unfolding ◌>>=◌ reads
  callback-Unmoved = record {
    at = λ db h. rw (delete_entity-missing rt org (clock db) id pco db h) refl;
  }

  usable-Unmoved :
      (p : Pco) (type : Text) (client : Option EntityClient)
      → Ensures (Unmoved rt org id) (usable p type client)
  unfolding usable
  usable-Unmoved p type none = search (effect_rules, Unmoved-preorder)
  usable-Unmoved p type (some c) = elim (Bool-cases (has_method c)) [
    | inl e ↦ rw e (search (effect_rules, Unmoved-preorder))
    | inr e ↦ rw e (search (effect_rules, Unmoved-preorder))
  ]

  delete_entity-Unmoved :
      (p : Pco) (entity_type external_id : Text)
      → Ensures
          (Unmoved rt org id)
          (pco_delete_entity p org (delete_callback rt org clock) entity_type external_id id)
  unfolding pco_delete_entity get_entity_client
  delete_entity-Unmoved p entity_type external_id = search (
    effect_rules, Unmoved-preorder, usable-Unmoved, Ensures-require, Ensures-map_error,
    callback-Unmoved,
  )

-- A delete that is pushed to Planning Center never changes the database, however it ends, unless the
-- internal id of the deleted row is itself the external id of a live link.
pub process_mutation-delete_unmoved :
    (rt : Runtime) (org : Text) (clock : Db → ℕ) (mk_entity_name : Text → Text) (p : Pco)
    (w : WebhookApi) (fuel : ℕ) (callbacks : Callbacks) (op : CrudOp) (db : Db)
    → op.op ≡ delete
    → found_link rt org op.internal_id pco db ≡ none
    → (process_mutation rt org clock mk_entity_name (manager p org w fuel) callbacks op db).1 ≡ db
process_mutation-delete_unmoved rt org clock mk_entity_name p w fuel callbacks op db d n =
    (process_mutation-delete rt org clock mk_entity_name (manager p org w fuel) callbacks
        (Unmoved-preorder rt org clock op.internal_id) op d
        (λ external_id.
          delete_entity-Unmoved rt org clock op.internal_id p (mk_entity_name op.table_name)
            external_id)).at
      db n
