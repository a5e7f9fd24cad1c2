-- ===== src/Links/Stamp.antt =====
-- When `lastProcessedAt` of a link stays: what `processExternalLinks` does to a link whose
-- `updatedAt` has not changed.
use openfaith.Common.{
  ℕ, suc, Bool, true, false, not, ◌||◌, ◌≡◌, refl, ap, ◌∙◌, inl, inr, List, [], ◌∷◌, Option, none,
  some, arith, Bool-cases, ◌==◌, filter, All, All-filter, Text,
}
use openfaith.Sql.{at_key, upsert, has_distinct_keys}
use openfaith.Sql.Laws.{after, at_key-upsert_rows}
use openfaith.Store.{ExternalLink, Db, Runtime}
use openfaith.Store.Effects.{IsPreorder, Ensures, effect_rules}
use openfaith.Store.Keys.{LinkKey, link_key, same_link_key, same_link_key_iff}
use openfaith.Links.{
  ExternalLinkInput, is_reference, set_entity_link, set_reference_link, values, entity_value,
  reference_value, insert_links, process_entity_links, process_reference_links,
  process_external_links, partition_by_data_presence,
}
use openfaith.Links.Laws.{link_at, set-key, set_entity_link-IsStable}

-- The link with key `k` and `updatedAt` `u` is the same in all columns.
abbrev pub KeepsLink : LinkKey → ℕ → Db → Db → Type 0
KeepsLink k u db db' =
    (l : ExternalLink) → link_at k db ≡ some l → l.updated_at ≡ some u → link_at k db' ≡ some l

pub KeepsLink-preorder : (k : LinkKey) (u : ℕ) → IsPreorder (KeepsLink k u)
KeepsLink-preorder k u = record {
  reflexive = λ db l e q. e;
  transitive = λ a b c h h' l e q. h' l (h l e q) q;
}

module _ (rt : Runtime) (org : Text) (k : LinkKey) (u : ℕ) where
  -- An input that does not change `updatedAt` of the link: a reference, a link with another key,
  -- or one with the same date.
  abbrev pub is_update_of : Option Text → Bool
  is_update_of none = false
  is_update_of (some date) = rt.parse_date date == u

  abbrev pub agrees : ExternalLinkInput → Bool
  agrees l =
      is_reference l
      || not (same_link_key (org, l.adapter, l.external_id) k)
      || is_update_of l.updated_at

  set_unchanged :
      (old new : ExternalLink)
      → old.updated_at ≡ some u
      → new.updated_at ≡ some u
      → set_entity_link old new ≡ old
  unfolding set_entity_link
  set_unchanged old new e e' = ground arith

  value_agrees :
      (now n : ℕ) (links : List ExternalLinkInput) (new : ExternalLink)
      → All (λ l. not (is_reference l) ≡ true) links
      → All (λ l. agrees l ≡ true) links
      → at_key link_key same_link_key k (values (entity_value rt org now) n links) ≡ some new
      → new.updated_at ≡ some u
  unfolding at_key entity_value
  value_agrees now n [] new r h e = cc
  value_agrees now n (l ∷ links) new (r, rs) (a, h) e =
      ground (arith, value_agrees now (suc n) links new rs h)

  entity_after :
      (now n : ℕ) (links : List ExternalLinkInput) (l : ExternalLink) (new : Option ExternalLink)
      → All (λ l. not (is_reference l) ≡ true) links
      → All (λ l. agrees l ≡ true) links
      → at_key link_key same_link_key k (values (entity_value rt org now) n links) ≡ new
      → l.updated_at ≡ some u
      → after set_entity_link (some l) new ≡ some l
  entity_after now n links l none r h e q = refl
  entity_after now n links l (some new) r h e q =
      ap some (set_unchanged l new q (value_agrees now n links new r h e))

  insert_entities-keeps :
      (now : ℕ) (links : List ExternalLinkInput) (count : ℕ)
      → All (λ l. not (is_reference l) ≡ true) links
      → All (λ l. agrees l ≡ true) links
      → Ensures
          (KeepsLink k u)
          (insert_links rt org set_entity_link (entity_value rt org now) links count)
  unfolding insert_links upsert
  insert_entities-keeps now links count r h = record { at = keeps }
    where
      keeps :
          (db : Db)
          → KeepsLink k u db
              (insert_links rt org set_entity_link (entity_value rt org now) links count db).1
      keeps db l e q =
          let rows = values (entity_value rt org now) db.next_id links in
          elim (Bool-cases (has_distinct_keys link_key same_link_key rows)) [
            | inl d ↦
                rw (d, insert_links, upsert)
                  (at_key-upsert_rows link_key same_link_key same_link_key_iff set_entity_link
                      (set-key set_entity_link set_entity_link-IsStable) k rows db.links d
                    ∙ rw e (entity_after now db.next_id links l _ r h refl q))
            | inr d ↦ rw (d, insert_links, upsert) e
          ]

  reference_after :
      (l : ExternalLink) (new : Option ExternalLink)
      → after set_reference_link (some l) new ≡ some l
  reference_after l none = refl
  reference_after l (some new) = refl

  insert_references-keeps :
      (now : ℕ) (links : List ExternalLinkInput) (count : ℕ)
      → Ensures
          (KeepsLink k u)
          (insert_links rt org set_reference_link (reference_value rt org now) links count)
  unfolding insert_links upsert
  insert_references-keeps now links count = record { at = keeps }
    where
      keeps :
          (db : Db)
          → KeepsLink k u db
              (insert_links rt org set_reference_link (reference_value rt org now) links count db).1
      keeps db l e q =
          let rows = values (reference_value rt org now) db.next_id links in
          elim (Bool-cases (has_distinct_keys link_key same_link_key rows)) [
            | inl d ↦
                rw (d, insert_links, upsert)
                  (at_key-upsert_rows link_key same_link_key same_link_key_iff set_reference_link
                      (λ old new. refl) k rows db.links d
                    ∙ rw e (reference_after l _))
            | inr d ↦ rw (d, insert_links, upsert) e
          ]

  process_entity_links-stamp :
      (now : ℕ) (force : Bool) (count : ℕ) (links : List ExternalLinkInput)
      → All (λ l. not (is_reference l) ≡ true) links
      → All (λ l. agrees l ≡ true) links
      → Ensures (KeepsLink k u) (process_entity_links rt org now force count links)
  unfolding process_entity_links
  process_entity_links-stamp now force count [] r h = search (effect_rules, KeepsLink-preorder)
  process_entity_links-stamp now force count (l ∷ ls) r h =
      search (effect_rules, KeepsLink-preorder, insert_entities-keeps)

  process_reference_links-stamp :
      (now : ℕ) (force : Bool) (count : ℕ) (links : List ExternalLinkInput)
      → Ensures (KeepsLink k u) (process_reference_links rt org now force count links)
  unfolding process_reference_links
  process_reference_links-stamp now force count [] = search (effect_rules, KeepsLink-preorder)
  process_reference_links-stamp now force count (l ∷ ls) =
      search (effect_rules, KeepsLink-preorder, insert_references-keeps)

  All-filter_self :
      (p : ExternalLinkInput → Bool) (links : List ExternalLinkInput)
      → All (λ l. p l ≡ true) (filter p links)
  All-filter_self p [] = tt
  All-filter_self p (l ∷ links) = elim (Bool-cases (p l)) [
    | inl e ↦ rw e (e, All-filter_self p links)
    | inr e ↦ rw e (All-filter_self p links)
  ]

  entity_part-stamp :
      (now : ℕ) (force : Bool) (count : ℕ) (links : List ExternalLinkInput)
      → All (λ l. agrees l ≡ true) links
      → Ensures (KeepsLink k u) (
          process_entity_links rt org now force count
            (partition_by_data_presence links).entity_links)
  unfolding partition_by_data_presence
  entity_part-stamp now force count links h =
      process_entity_links-stamp now force count (filter (λ l. not (is_reference l)) links)
        (All-filter_self _ links) (All-filter _ _ links h)

  -- A link whose `updatedAt` every input agrees with is left as it is, `lastProcessedAt` included,
  -- whenever the links are processed and however that ends.
  pub process_external_links-stamp :
      (entity_first : Bool) (now : ℕ) (force : Bool) (links : List ExternalLinkInput)
      → All (λ l. agrees l ≡ true) links
      → Ensures (KeepsLink k u) (process_external_links rt org entity_first now force links)
  unfolding process_external_links
  process_external_links-stamp true now force links h =
      search (effect_rules, KeepsLink-preorder, process_reference_links-stamp, entity_part-stamp)
  process_external_links-stamp false now force links h =
      search (effect_rules, KeepsLink-preorder, process_reference_links-stamp, entity_part-stamp)
