-- ===== src/InternalManager/Links.antt =====
-- What the callbacks of the internal manager do to a link.
use openfaith.Common.{ℕ, Bool, List, Text}
use openfaith.Store.{Db, Exec, Runtime}
use openfaith.Store.Effects.{Ensures, SameLinks, Ensures-bind, Ensures-reads}
use openfaith.Store.Keys.{LinkKey}
use openfaith.Links.Stamp.{KeepsLink, KeepsLink-preorder, process_external_links-stamp}
use openfaith.Pco.{Pco}
use openfaith.Pco.Unchanged.{AreGentle}
use openfaith.InternalManager.{internal_callbacks}
use openfaith.Entities.Links.{process_entities-links}
use openfaith.Relationships.Laws.{process_relationships-links}

same-KeepsLink {ℓ} :
    {A : Type ℓ} (k : LinkKey) (u : ℕ) (m : Exec A)
    → Ensures SameLinks m
    → Ensures (KeepsLink k u) m
same-KeepsLink k u m h = record { at = λ db l e q. rw (h.at db) e }

-- Callbacks of the internal manager leave alone a link that they are given no change of.
pub internal_callbacks-AreGentle :
    (rt : Runtime) (sort_distinct : List Text → List Text) (org : Text) (clock : Db → ℕ)
    (entity_first : Bool) (k : LinkKey) (u : ℕ) (p : Pco)
    → AreGentle rt org k u p (internal_callbacks rt sort_distinct org clock entity_first)
unfolding internal_callbacks
internal_callbacks-AreGentle rt sort_distinct org clock entity_first k u p = record {
  links = λ links force h.
      Ensures-bind (KeepsLink-preorder k u) _ _ (Ensures-reads (KeepsLink-preorder k u) clock)
        (λ now. process_external_links-stamp rt org k u entity_first now force links h);
  entities = λ es. same-KeepsLink k u _ (process_entities-links rt org es);
  relationships = λ rs. same-KeepsLink k u _ (process_relationships-links sort_distinct org rs);
}
