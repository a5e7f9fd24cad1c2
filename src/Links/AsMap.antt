-- ===== src/Links/AsMap.antt =====
-- The links as a map by their primary keys: what `processExternalLinks` does to it.
use openfaith.Common.{
  ℕ, ◌+◌, ◌≡◌, refl, ap, sym, ◌∙◌, Bool, true, false, List, [], ◌∷◌, Option, length, arith,
  Bool-cases, inl, inr, Text,
}
use openfaith.Sql.{at_key, upsert, has_distinct_keys}
use openfaith.Sql.Laws.{after, at_key-upsert_rows}
use openfaith.Store.{ExternalLink, Db, Exit, ok, fail, die, Exec, resume, ◌>>=◌, pure, Runtime}
use openfaith.Store.Keys.{LinkKey, link_key, same_link_key, same_link_key_iff}
use openfaith.Links.{
  ExternalLinkInput, LinkResults, ProcessedLinks, partition_by_data_presence, set_entity_link,
  set_reference_link, entity_value, reference_value, values, insert_links, process_entity_links,
  process_reference_links, process_external_links,
}
use openfaith.Links.Merged.{is_dated, is_undated, count_of, merged}
use openfaith.Links.Merged.Laws.{
  after-entity_links, after-reference_links, length-entity_links, length-reference_links,
}
use openfaith.Links.Laws.{link_at, set-key, set_entity_link-IsStable}

module _ {A B : Type 0} where
  resume-ok :
      (k : A → Exec B) (r : Exit A) (db : Db) (x : B)
      → (resume k r db).0 ≡ ok x
      → (a : A) × (r ≡ ok a) × (resume k r db ≡ k a db)
  resume-ok k (ok a) db x h = (a, refl, refl)
  resume-ok k (fail e) db x h = absurd (cc h)
  resume-ok k die db x h = absurd (cc h)

  bind-ok :
      (m : Exec A) (k : A → Exec B) (db : Db) (x : B)
      → ((m >>= k) db).0 ≡ ok x
      → (a : A) × ((m db).0 ≡ ok a) × ((m >>= k) db ≡ k a (m db).1)
  unfolding ◌>>=◌
  bind-ok m k db x h = resume-ok k (m db).0 (m db).1 x h

module _ (rt : Runtime) (org : Text) where
  module _ (set : ExternalLink → ExternalLink → ExternalLink)
      (value : ℕ → ExternalLinkInput → ExternalLink) (links : List ExternalLinkInput) (count : ℕ)
      (db : Db) where
    insert_links-refused :
        has_distinct_keys link_key same_link_key (values value db.next_id links) ≡ false
        → (results : List ExternalLink)
        → (insert_links rt org set value links count db).0 ≡ ok results
        → ⊥
    unfolding insert_links upsert
    insert_links-refused d results = rw (d, insert_links, upsert) (λ e. cc e)

    -- A statement that succeeds touches no row twice.
    insert_links-distinct :
        (results : List ExternalLink)
        → (insert_links rt org set value links count db).0 ≡ ok results
        → has_distinct_keys link_key same_link_key (values value db.next_id links) ≡ true
    insert_links-distinct results h =
        elim (Bool-cases
          (has_distinct_keys link_key same_link_key (values value db.next_id links))) [
            | inl d ↦ d
            | inr d ↦ absurd (insert_links-refused d results h)
          ]

    link_at-insert_links :
        (keeps : (old new : ExternalLink) → link_key (set old new) ≡ link_key old) (k : LinkKey)
        (results : List ExternalLink)
        → (insert_links rt org set value links count db).0 ≡ ok results
        → link_at k (insert_links rt org set value links count db).1
          ≡ after set
              (link_at k db)
              (at_key link_key same_link_key k (values value db.next_id links))
    unfolding insert_links upsert
    link_at-insert_links keeps k results h =
        let d = insert_links-distinct results h in
        rw (d, insert_links, upsert)
          (at_key-upsert_rows link_key same_link_key same_link_key_iff set keeps k
            (values value db.next_id links) db.links d)

    next_id-insert_links :
        (results : List ExternalLink)
        → (insert_links rt org set value links count db).0 ≡ ok results
        → (insert_links rt org set value links count db).1.next_id ≡ db.next_id + length links
    unfolding insert_links upsert
    next_id-insert_links results h = rw (insert_links-distinct results h, insert_links, upsert) refl

  -- The row that a list of links has for a key, when the next id has the number n.
  abbrev pub row_of :
      (value : ℕ → ExternalLinkInput → ExternalLink)
      → ℕ
      → List ExternalLinkInput
      → LinkKey
      → Option ExternalLink
  row_of value n links k = at_key link_key same_link_key k (values value n links)

  module _ (now : ℕ) (force : Bool) (count : ℕ) (k : LinkKey) where
    -- What a statement that succeeds leaves at the key, and the number of the next id.
    abbrev Leaves :
        (set : ExternalLink → ExternalLink → ExternalLink)
        (value : ℕ → ExternalLinkInput → ExternalLink)
        → List ExternalLinkInput
        → Db
        → Db
        → Type 0
    Leaves set value links db db' =
        (link_at k db' ≡ after set (link_at k db) (row_of value db.next_id links k))
        × (db'.next_id ≡ db.next_id + length links)

    entity_links-Leaves :
        (links : List ExternalLinkInput) (db : Db) (results : LinkResults)
        → (process_entity_links rt org now force count links db).0 ≡ ok results
        → Leaves set_entity_link
            (entity_value rt org now)
            links
            db
            (process_entity_links rt org now force count links db).1
    unfolding process_entity_links pure at_key
    entity_links-Leaves [] db results h = (refl, omega arith)
    entity_links-Leaves (l ∷ ls) db results h =
        let (rows, done, e) = bind-ok _ _ db results h in
        rw e (
          link_at-insert_links set_entity_link (entity_value rt org now) (l ∷ ls) count db
              (set-key set_entity_link set_entity_link-IsStable) k rows done,
          next_id-insert_links set_entity_link (entity_value rt org now) (l ∷ ls) count db rows
              done,
        )

    reference_links-Leaves :
        (links : List ExternalLinkInput) (db : Db) (results : LinkResults)
        → (process_reference_links rt org now force count links db).0 ≡ ok results
        → Leaves set_reference_link
            (reference_value rt org now)
            links
            db
            (process_reference_links rt org now force count links db).1
    unfolding process_reference_links pure at_key
    reference_links-Leaves [] db results h = (refl, omega arith)
    reference_links-Leaves (l ∷ ls) db results h =
        let (rows, done, e) = bind-ok _ _ db results h in
        rw e (
          link_at-insert_links set_reference_link (reference_value rt org now) (l ∷ ls) count db
              (λ old new. refl) k rows done,
          next_id-insert_links set_reference_link (reference_value rt org now) (l ∷ ls) count db
              rows done,
        )

  -- When `processExternalLinks` succeeds, the row with a primary key is the one that `merged` describes:
  -- the first link of the list that has the key and says when it was created or updated makes a new row,
  -- or moves only `updatedAt` of the row there is, and its `lastProcessedAt` if that is another time; the
  -- first link with the key that says neither makes a new row, and leaves one there is as it was; the
  -- two follow each other as the statements do, and no other link has a part in it.
  pub link_at-process_external_links :
      (entity_first : Bool) (now : ℕ) (force : Bool) (links : List ExternalLinkInput) (db : Db)
      (processed : ProcessedLinks) (k : LinkKey)
      → (process_external_links rt org entity_first now force links db).0 ≡ ok processed
      → link_at k (process_external_links rt org entity_first now force links db).1
        ≡ merged rt org entity_first now links db.next_id k (link_at k db)
  unfolding process_external_links pure merged
  link_at-process_external_links true now force links db processed k h =
      let parts = partition_by_data_presence links in
      let (e, he, step) = bind-ok _ _ db processed h in
      let mid = (process_entity_links rt org now force (length links) parts.entity_links db).1 in
      let (r, hr, last) = bind-ok _ _ mid processed (sym (ap (λ x. x.0) step) ∙ h) in
      let (le, ne) = entity_links-Leaves now force (length links) k parts.entity_links db e he in
      let (lr, nr) =
        reference_links-Leaves now force (length links) k parts.reference_links mid r hr in
      ap (λ x. link_at k x.1) (step ∙ last)
      ∙ rw
          (
            lr,
            le,
            ne,
            after-entity_links rt org now db.next_id links k (link_at k db),
            length-entity_links rt org links,
          )
          (after-reference_links rt org now (db.next_id + count_of is_dated links) links k _)
  link_at-process_external_links false now force links db processed k h =
      let parts = partition_by_data_presence links in
      let (r, hr, step) = bind-ok _ _ db processed h in
      let mid =
        (process_reference_links rt org now force (length links) parts.reference_links db).1 in
      let (e, he, last) = bind-ok _ _ mid processed (sym (ap (λ x. x.0) step) ∙ h) in
      let (lr, nr) =
        reference_links-Leaves now force (length links) k parts.reference_links db r hr in
      let (le, ne) = entity_links-Leaves now force (length links) k parts.entity_links mid e he in
      ap (λ x. link_at k x.1) (step ∙ last)
      ∙ rw
          (
            le,
            lr,
            nr,
            after-reference_links rt org now db.next_id links k (link_at k db),
            length-reference_links rt org links,
          )
          (after-entity_links rt org now (db.next_id + count_of is_undated links) links k _)
