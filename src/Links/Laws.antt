-- ===== src/Links/Laws.antt =====
-- What `processExternalLinks` keeps of the links that exist.
use openfaith.Common.{
  ℕ, Bool, true, false, ◌≡◌, refl, inl, inr, List, [], ◌∷◌, Option, none, some, arith, Bool-cases,
  Text,
}
use openfaith.Sql.{at_key, upsert, upsert_rows, has_distinct_keys}
use openfaith.Sql.Laws.{HasUniqueKeys, after, at_key-upsert_rows, upsert_rows-HasUniqueKeys}
use openfaith.Store.{ExternalLink, Db, Runtime}
use openfaith.Store.Effects.{IsPreorder, Ensures, effect_rules}
use openfaith.Store.Keys.{LinkKey, link_key, same_link_key, same_link_key_iff}
use openfaith.Links.{
  ExternalLinkInput, set_entity_link, values, insert_links, process_entity_links,
  process_reference_links, process_external_links,
}

abbrev pub link_at : LinkKey → Db → Option ExternalLink
link_at k db = at_key link_key same_link_key k db.links

abbrev pub HasUniqueLinks : Db → Type 0
HasUniqueLinks db = HasUniqueKeys link_key same_link_key db.links

-- All columns but `lastProcessedAt` and `updatedAt` are the same.
pub record IsStable (old new : ExternalLink) : Type 0 where
  pub adapter : new.adapter ≡ old.adapter
  pub created_at : new.created_at ≡ old.created_at
  pub deleted_at : new.deleted_at ≡ old.deleted_at
  pub deleted_by : new.deleted_by ≡ old.deleted_by
  pub entity_id : new.entity_id ≡ old.entity_id
  pub entity_type : new.entity_type ≡ old.entity_type
  pub external_id : new.external_id ≡ old.external_id
  pub org_id : new.org_id ≡ old.org_id
  pub syncing : new.syncing ≡ old.syncing

pub IsStable-refl : (l : ExternalLink) → IsStable l l
IsStable-refl l = ground arith

pub IsStable-trans : (a b c : ExternalLink) → IsStable a b → IsStable b c → IsStable a c
IsStable-trans a b c h k = ground arith

pub set_entity_link-IsStable : (old new : ExternalLink) → IsStable old (set_entity_link old new)
unfolding set_entity_link
set_entity_link-IsStable old new = ground arith

-- Every link of `db` is in `db'` with the same identity.
abbrev pub Preserves : Db → Db → Type 0
Preserves db db' =
    (k : LinkKey) (old : ExternalLink)
    → link_at k db ≡ some old
    → (new : ExternalLink) × (link_at k db' ≡ some new) × IsStable old new

pub Preserves-refl : (db : Db) → Preserves db db
Preserves-refl db k old e = (old, e, IsStable-refl old)

pub Preserves-trans : (a b c : Db) → Preserves a b → Preserves b c → Preserves a c
Preserves-trans a b c h h' k old e =
    let (mid, at_mid, s) = h k old e in
    let (new, at_new, s') = h' k mid at_mid in (new, at_new, IsStable-trans old mid new s s')

-- The links an effect may leave behind, whether it succeeds or not.
pub record KeepsLinks (db db' : Db) : Type 0 where
  pub unique : HasUniqueLinks db → HasUniqueLinks db'
  pub preserved : Preserves db db'

pub KeepsLinks-refl : (db : Db) → KeepsLinks db db
KeepsLinks-refl db = record { unique = λ u. u; preserved = Preserves-refl db }

pub KeepsLinks-trans : (a b c : Db) → KeepsLinks a b → KeepsLinks b c → KeepsLinks a c
KeepsLinks-trans a b c h k = record {
  unique = λ u. k.unique (h.unique u);
  preserved = Preserves-trans a b c h.preserved k.preserved;
}

KeepsLinks-preorder : IsPreorder KeepsLinks
KeepsLinks-preorder = record { reflexive = KeepsLinks-refl; transitive = KeepsLinks-trans }

module _ (set : ExternalLink → ExternalLink → ExternalLink)
    (stable : (old new : ExternalLink) → IsStable old (set old new)) where
  pub set-key : (old new : ExternalLink) → link_key (set old new) ≡ link_key old
  set-key old new = let s = stable old new in ground arith

  after-IsStable :
      (old : ExternalLink) (new : Option ExternalLink)
      → (l : ExternalLink) × (after set (some old) new ≡ some l) × IsStable old l
  after-IsStable old none = (old, refl, IsStable-refl old)
  after-IsStable old (some new) = (set old new, refl, stable old new)

  upsert_rows-preserves :
      (rows table : List ExternalLink) (k : LinkKey) (old : ExternalLink)
      → has_distinct_keys link_key same_link_key rows ≡ true
      → at_key link_key same_link_key k table ≡ some old
      → (l : ExternalLink) × (at_key link_key same_link_key k
            (upsert_rows link_key same_link_key set rows table).1
          ≡ some l)
        × IsStable old l
  upsert_rows-preserves rows table k old d e =
      rw (at_key-upsert_rows link_key same_link_key same_link_key_iff set set-key k rows table d, e)
        (after-IsStable old (at_key link_key same_link_key k rows))

  insert_links-keeps :
      (rt : Runtime) (org : Text) (value : ℕ → ExternalLinkInput → ExternalLink)
      (links : List ExternalLinkInput) (count : ℕ)
      → Ensures KeepsLinks (insert_links rt org set value links count)
  unfolding insert_links upsert
  insert_links-keeps rt org value links count = record { at = keeps }
    where
      keeps : (db : Db) → KeepsLinks db (insert_links rt org set value links count db).1
      keeps db =
          let rows = values value db.next_id links in
          elim (Bool-cases (has_distinct_keys link_key same_link_key rows)) [
            | inl d ↦
                rw (d, insert_links, upsert)
                  (record {
                    unique =
                        upsert_rows-HasUniqueKeys link_key same_link_key same_link_key_iff set
                          set-key rows db.links;
                    preserved = λ k old e. upsert_rows-preserves rows db.links k old d e;
                  })
            | inr d ↦ rw (d, insert_links, upsert) (KeepsLinks-refl db)
          ]

ruleset keeps_links_rules =
    (effect_rules, KeepsLinks-preorder, insert_links-keeps, set_entity_link-IsStable, IsStable-refl)

module _ (rt : Runtime) (org : Text) (now : ℕ) (force : Bool) (count : ℕ) where
  process_entity_links-keeps :
      (links : List ExternalLinkInput)
      → Ensures KeepsLinks (process_entity_links rt org now force count links)
  unfolding process_entity_links
  process_entity_links-keeps [] = search keeps_links_rules
  process_entity_links-keeps (l ∷ ls) = search keeps_links_rules

  process_reference_links-keeps :
      (links : List ExternalLinkInput)
      → Ensures KeepsLinks (process_reference_links rt org now force count links)
  unfolding process_reference_links
  process_reference_links-keeps [] = search keeps_links_rules
  process_reference_links-keeps (l ∷ ls) = search keeps_links_rules

-- Whatever `processExternalLinks` is given and however it ends, primary keys stay unique and every
-- link that existed keeps all its columns but `lastProcessedAt` and `updatedAt`. In particular its
-- entity stays the same, and a soft-deleted link is not revived.
pub process_external_links-keeps :
    (rt : Runtime) (org : Text) (entity_first : Bool) (now : ℕ) (force : Bool)
    (links : List ExternalLinkInput)
    → Ensures KeepsLinks (process_external_links rt org entity_first now force links)
unfolding process_external_links
process_external_links-keeps rt org true now force links =
    search (keeps_links_rules, process_entity_links-keeps, process_reference_links-keeps)
process_external_links-keeps rt org false now force links =
    search (keeps_links_rules, process_entity_links-keeps, process_reference_links-keeps)
