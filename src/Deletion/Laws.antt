-- ===== src/Deletion/Laws.antt =====
-- What the deletions mark, and that nothing else changes.
use mathlib.Core.Option
use openfaith.Common.{
  ℕ, true, false, ◌≡◌, refl, sym, ◌∙◌, List, [], ◌∷◌, map, Option, none, some, arith, if◌then◌else◌,
  any, filter, Text, ◌===◌, ===_iff, ===-refl,
}
use openfaith.Sql.{at_key, update, select}
use openfaith.Sql.Laws.{HasUniqueKeys, key_of-at_key, at_key-update}
use openfaith.Sql.Rows.{update_none}
use openfaith.Store.{ExternalLink, Db, ◌>>=◌, pure, reads, writes}
use openfaith.Store.Keys.{LinkKey, link_key, same_link_key, same_link_key_iff}
use openfaith.Links.Laws.{link_at, HasUniqueLinks}
use openfaith.Deletion.{mark_link, is_stale, is_listed, mark_stale, detect_and_mark_deleted}

module _ (org adapter entity_type : Text) (start : ℕ) where
  abbrev stale_ids : List ExternalLink → List Text
  stale_ids links = map (λ s. s.external_id) (filter (is_stale org adapter entity_type start) links)

  listed-none :
      (k : LinkKey) (links : List ExternalLink)
      → k.0 ≡ org
      → k.1 ≡ adapter
      → at_key link_key same_link_key k links ≡ none
      → any (λ id. id === k.2) (stale_ids links) ≡ false
  unfolding at_key same_link_key
  listed-none k [] o a e = refl
  listed-none k (l ∷ links) o a e = ground (
    arith,
    listed-none k links o a,
    ===_iff l.org_id org,
    ===_iff l.adapter adapter,
    ===_iff l.org_id k.0,
    ===_iff l.adapter k.1,
  )

  stale-listed :
      (k : LinkKey) (links : List ExternalLink) (l : ExternalLink)
      → at_key link_key same_link_key k links ≡ some l
      → is_stale org adapter entity_type start l ≡ true
      → any (λ id. id === l.external_id) (stale_ids links) ≡ true
  unfolding at_key
  stale-listed k [] l e s = cc
  stale-listed k (h ∷ links) l e s = ground (arith, stale-listed k links l, ===-refl l.external_id)

  -- In a table with unique keys, a listed row of the adapter is stale itself.
  listed-stale :
      (k : LinkKey) (links : List ExternalLink) (l : ExternalLink)
      → HasUniqueKeys link_key same_link_key links
      → at_key link_key same_link_key k links ≡ some l
      → k.0 ≡ org
      → k.1 ≡ adapter
      → any (λ id. id === k.2) (stale_ids links) ≡ true
      → is_stale org adapter entity_type start l ≡ true
  unfolding at_key
  listed-stale k [] l u e o a s = cc
  listed-stale k (h ∷ links) l (fresh, u) e o a s = ground (
    arith,
    listed-stale k links l u,
    listed-none (link_key h) links,
    same_link_key_iff (link_key h) k,
    ===_iff h.external_id k.2,
    ===_iff h.org_id org,
    ===_iff h.adapter adapter,
  )

  listed-eq-stale :
      (k : LinkKey) (links : List ExternalLink) (l : ExternalLink)
      → HasUniqueKeys link_key same_link_key links
      → at_key link_key same_link_key k links ≡ some l
      → is_listed org adapter entity_type (stale_ids links) l
        ≡ is_stale org adapter entity_type start l
  listed-eq-stale k links l u e =
      let own : at_key link_key same_link_key (link_key l) links ≡ some l =
        rw (key_of-at_key link_key same_link_key same_link_key_iff k links e) e in
      ground (
        arith,
        stale-listed (link_key l) links l own,
        listed-stale (link_key l) links l u own,
        ===_iff l.org_id org,
        ===_iff l.adapter adapter,
      )

  marked-eq :
      (now : ℕ) (k : LinkKey) (links : List ExternalLink) (l : Option ExternalLink)
      → HasUniqueKeys link_key same_link_key links
      → at_key link_key same_link_key k links ≡ l
      → Option.map
          (λ r.
            if is_listed org adapter entity_type (stale_ids links) r then mark_link now r else r)
          l
        ≡ Option.map
            (λ r. if is_stale org adapter entity_type start r then mark_link now r else r)
            l
  marked-eq now k links none u e = refl
  marked-eq now k links (some l) u e = rw (listed-eq-stale k links l u e)

  mark_stale-links :
      (now : ℕ) (stale : List ExternalLink) (db : Db)
      → (mark_stale org now adapter entity_type stale db).1.links
        ≡ update
            (is_listed org adapter entity_type (map (λ s. s.external_id) stale))
            (mark_link now)
            db.links
  unfolding mark_stale pure writes ◌>>=◌
  mark_stale-links now [] db = sym (update_none _ _ db.links (λ l. ground arith))
  mark_stale-links now (l ∷ ls) db = refl

  -- If the primary keys of the links are unique, each link is soft-deleted if it is stale, and
  -- stays as it is if not: the update by external ids hits no other link, since external ids are
  -- unique for an organisation and an adapter.
  pub link_at-detect :
      (now : ℕ) (db : Db) (k : LinkKey)
      → HasUniqueLinks db
      → link_at k (detect_and_mark_deleted org now adapter entity_type start db).1
        ≡ Option.map
            (λ l. if is_stale org adapter entity_type start l then mark_link now l else l)
            (link_at k db)
  unfolding detect_and_mark_deleted ◌>>=◌ reads
  link_at-detect now db k u =
      rw (mark_stale-links now (select (is_stale org adapter entity_type start) db.links) db) (
        at_key-update link_key same_link_key same_link_key_iff
          (is_listed org adapter entity_type (stale_ids db.links)) (mark_link now) (λ l. refl) k
          db.links
        ∙ marked-eq now k db.links _ u refl)

  -- A stale link is soft-deleted, whatever other links there are.
  pub detect-stale :
      (now : ℕ) (db : Db) (k : LinkKey) (l : ExternalLink)
      → link_at k db ≡ some l
      → is_stale org adapter entity_type start l ≡ true
      → link_at k (detect_and_mark_deleted org now adapter entity_type start db).1
        ≡ some (mark_link now l)
  unfolding detect_and_mark_deleted ◌>>=◌ reads
  detect-stale now db k l e s =
      let own = key_of-at_key link_key same_link_key same_link_key_iff k db.links e in
      let listed : is_listed org adapter entity_type (stale_ids db.links) l ≡ true =
        ground (arith, stale-listed k db.links l e s) in
      rw (mark_stale-links now (select (is_stale org adapter entity_type start) db.links) db) (
        at_key-update link_key same_link_key same_link_key_iff
          (is_listed org adapter entity_type (stale_ids db.links)) (mark_link now) (λ l. refl) k
          db.links
        ∙ rw (e, listed) refl)
