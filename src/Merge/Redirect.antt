-- ===== src/Merge/Redirect.antt =====
-- Where the edges of a removed entity go.
use openfaith.Common.{ℕ, true, false, ◌&&◌, ◌≡◌, if◌then◌else◌, Text, ◌===◌, ===_iff, arith}
use openfaith.Store.{Edge}
use openfaith.Deletion.{touches}
use openfaith.Merge.{redirect}

-- An edge between the removed entity and another one, redirected to a kept entity that is not the
-- removed one, is an edge between the kept entity and that other one, on the same sides: it does not
-- touch the removed entity any more, and its type, metadata, organisation and deletion are those of
-- the old edge.
pub redirect_lem :
    (now : ℕ) (remove keep : Text) (e : Edge)
    → (remove === keep) ≡ false
    → touches remove e ≡ true
    → (e.source_entity_id === remove && e.target_entity_id === remove) ≡ false
    → (touches remove (redirect now remove keep e) ≡ false)
      × ((redirect now remove keep e).source_entity_id
          ≡ (if e.source_entity_id === remove then keep else e.source_entity_id))
      × ((redirect now remove keep e).target_entity_id
          ≡ (if e.target_entity_id === remove then keep else e.target_entity_id))
      × ((redirect now remove keep e).relationship_type ≡ e.relationship_type)
      × ((redirect now remove keep e).metadata ≡ e.metadata)
      × ((redirect now remove keep e).org_id ≡ e.org_id)
      × ((redirect now remove keep e).deleted_at ≡ e.deleted_at)
unfolding redirect
redirect_lem now remove keep e other touched no_loop =
    ground (arith, ===_iff remove keep, ===_iff keep remove)
