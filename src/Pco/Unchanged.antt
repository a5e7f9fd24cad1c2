-- ===== src/Pco/Unchanged.antt =====
-- A page of Planning Center data and a link whose entity has not changed there.
use openfaith.Common.{
  ℕ, Bool, true, false, ◌≡◌, refl, inl, inr, List, [], ◌∷◌, ◌++◌, Option, none, some, ◌||◌, any,
  Bool-cases, ◌===◌, All, All-append, Text,
}
use openfaith.Store.{ExternalLink, Entity, fails, Db, Error, Exec, ◌>>=◌, pure, Runtime}
use openfaith.Store.Effects.{
  IsPreorder, Ensures, effect_rules, Ensures-fails, Ensures-pure, Ensures-dies, Ensures-bind,
}
use openfaith.Store.Keys.{LinkKey}
use openfaith.Links.{ExternalLinkInput}
use openfaith.Links.Stamp.{KeepsLink, KeepsLink-preorder, agrees}
use openfaith.Relations.{contains}
use openfaith.SyncEngine.{Callbacks, RelationshipInput}
use openfaith.Pco.{
  PcoEntity, Response, Pco, require, or_dies, map_error, filter_unless_empty, normalize_response,
  link_input, create_external_links, transform_found, transform_changed, missing_from,
  missing_links, extract_with, extract_relationships_enhanced, process_pco_data,
}

module _ {R : Db → Db → Type 0} (o : IsPreorder R) where
  pub Ensures-require {ℓ} : {A : Type ℓ} (e : Error) (a : Option A) → Ensures R (require e a)
  Ensures-require e none = Ensures-fails o e
  Ensures-require e (some a) = Ensures-pure o a

  Ensures-or_dies {ℓ} : {A : Type ℓ} (a : Option A) → Ensures R (or_dies a)
  Ensures-or_dies none = Ensures-dies o
  Ensures-or_dies (some a) = Ensures-pure o a

  -- The rest of the block may use that the value was there.
  pub Ensures-require_bind {ℓ} :
      {A B : Type ℓ} (e : Error) (a : Option A) (k : A → Exec B)
      → ((b : A) → a ≡ some b → Ensures R (k b))
      → Ensures R (require e a >>= k)
  unfolding ◌>>=◌ fails pure
  Ensures-require_bind e none k h = record { at = o.reflexive }
  Ensures-require_bind e (some a) k h = record { at = (h a refl).at }

pub Ensures-map_error {ℓ} :
    {R : Db → Db → Type 0} {A : Type ℓ} (e : Error) (m : Exec A)
    → Ensures R m
    → Ensures R (map_error e m)
unfolding map_error
Ensures-map_error e m h = record { at = h.at }

-- Normalising a response changes nothing: the filters of the schemas are never applied, to root data
-- or to included data.
pub normalize_response_lem : (p : Pco) (r : Response) → normalize_response p r ≡ r
unfolding normalize_response filter_unless_empty
normalize_response_lem p r = refl

module _ (rt : Runtime) (org : Text) (k : LinkKey) (u : ℕ) (p : Pco) where
  -- The entity does not change `updatedAt` of the link.
  abbrev pub IsUnchanged : PcoEntity → Type 0
  IsUnchanged e = agrees rt org k u (link_input p e) ≡ true

  abbrev pub AllUnchanged : Response → Type 0
  AllUnchanged r = All IsUnchanged r.data_rows × All IsUnchanged r.included

  links-agree :
      (es : List PcoEntity)
      → All IsUnchanged es
      → All (λ l. agrees rt org k u l ≡ true) (create_external_links p es)
  unfolding create_external_links
  links-agree [] h = tt
  links-agree (e ∷ es) (h, hs) = (h, links-agree es hs)

  missing-agree :
      (links : List ExternalLink) (seen : List Text) (targets : List (Text × Text))
      → All (λ l. agrees rt org k u l ≡ true) (missing_from p links seen targets)
  unfolding missing_from
  missing-agree links seen [] = tt
  missing-agree links seen ((id, type) ∷ targets) =
      elim (Bool-cases
        (any (λ (l : ExternalLink). l.external_id === id) links || contains id seen)) [
          | inl e ↦ rw e (missing-agree links seen targets)
          | inr e ↦ rw e (refl, missing-agree links (id ∷ seen) targets)
        ]

  -- Callbacks that leave the link alone, as far as they are given unchanged entities.
  pub record AreGentle (callbacks : Callbacks) : Type 0 where
    pub links :
        (links : List ExternalLinkInput) (force : Bool)
        → All (λ l. agrees rt org k u l ≡ true) links
        → Ensures (KeepsLink k u) (callbacks.process_external_links links force)
    pub entities : (es : List Entity) → Ensures (KeepsLink k u) (callbacks.process_entities es)
    pub relationships :
        (rs : List RelationshipInput) → Ensures (KeepsLink k u) (callbacks.process_relationships rs)

  transform_found-stamp :
      (link : ExternalLink) (e : Option PcoEntity) (rest : List Entity)
      → Ensures (KeepsLink k u) (transform_found p org link e rest)
  unfolding transform_found
  transform_found-stamp link none rest = search (effect_rules, KeepsLink-preorder)
  transform_found-stamp link (some e) rest =
      search (effect_rules, KeepsLink-preorder, Ensures-require)

  transform_changed-stamp :
      (es : List PcoEntity) (links : List ExternalLink)
      → Ensures (KeepsLink k u) (transform_changed p org es links)
  unfolding transform_changed
  transform_changed-stamp es [] = search (effect_rules, KeepsLink-preorder)
  transform_changed-stamp es (link ∷ links) =
      search
        (effect_rules, KeepsLink-preorder, transform_found-stamp, transform_changed-stamp es links)

  module _ (callbacks : Callbacks) (g : AreGentle callbacks) where
    extract_with-stamp :
        (es : List PcoEntity) (links : List ExternalLink) (missing : List ExternalLinkInput)
        → All (λ l. agrees rt org k u l ≡ true) missing
        → Ensures (KeepsLink k u) (extract_with p callbacks es links missing)
    unfolding extract_with
    extract_with-stamp es links [] h = search (effect_rules, KeepsLink-preorder, Ensures-or_dies)
    extract_with-stamp es links (m ∷ ms) h =
        search (effect_rules, KeepsLink-preorder, Ensures-or_dies, g.links (m ∷ ms) false h)

    extract-stamp :
        (es : List PcoEntity) (links : List ExternalLink)
        → Ensures (KeepsLink k u) (extract_relationships_enhanced p callbacks es links)
    unfolding extract_relationships_enhanced missing_links
    extract-stamp es links =
        extract_with-stamp es links (missing_links p es links) (missing-agree links [] _)

    page-stamp :
        (r : Response) (force : Bool)
        → All
            (λ l. agrees rt org k u l ≡ true)
            (create_external_links p r.data_rows ++ create_external_links p r.included)
        → Ensures (KeepsLink k u) (process_pco_data p callbacks org r force)
    unfolding process_pco_data
    page-stamp r force h =
        Ensures-bind (KeepsLink-preorder k u) _ _ (g.links _ force h) (λ processed.
          Ensures-bind (KeepsLink-preorder k u) _ _ (transform_changed-stamp _ _) (λ roots.
            Ensures-bind (KeepsLink-preorder k u) _ _ (transform_changed-stamp _ _) (λ included.
              Ensures-bind (KeepsLink-preorder k u) _ _ (g.entities _) (λ _.
                Ensures-bind (KeepsLink-preorder k u) _ _ (extract-stamp _ _)
                  (λ rels. g.relationships rels)))))

    -- Processing a page of unchanged entities leaves the link as it is.
    pub process_pco_data-stamp :
        (r : Response) (force : Bool)
        → AllUnchanged r
        → Ensures (KeepsLink k u) (process_pco_data p callbacks org (normalize_response p r) force)
    process_pco_data-stamp r force (roots, included) = rw (normalize_response_lem p r) (
        page-stamp r force
          (All-append _ _ _ (links-agree r.data_rows roots) (links-agree r.included included)))
