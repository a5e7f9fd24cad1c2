-- ===== src/Links.antt =====
-- External links: the helpers and `processExternalLinks` of
-- backend/server/live/internalManagerLive.ts.
pub mod AsMap
pub mod Laws
pub mod Merged
pub mod Stamp
use openfaith.Common.{
  ℕ, suc, zero, ◌+◌, Bool, true, false, not, ◌&&◌, List, [], ◌∷◌, ◌++◌, map, Option, none, some,
  if◌then◌else◌, ltb, leb, ◌==◌, length, filter, Text,
}
use openfaith.Sql.{upsert}
use openfaith.Store.{
  ExternalLink, Db, Exit, ok, fail, external_link_upsert, Exec, ◌>>=◌, pure, Runtime,
}
use openfaith.Store.Keys.{link_key, same_link_key}

pub record ExternalLinkInput : Type 0 where
  pub adapter : Text
  pub entity_id : Option Text
  pub external_id : Text
  pub entity_type : Text
  pub created_at : Option Text
  pub updated_at : Option Text

-- `!text` at an optional text: undefined or empty
abbrev pub is_falsy : Option Text → Bool
is_falsy none = true
is_falsy (some []) = true
is_falsy (some (_ ∷ _)) = false

-- Reference links have neither date.
abbrev pub is_reference : ExternalLinkInput → Bool
is_reference link = is_falsy link.created_at && is_falsy link.updated_at

pub record Partition : Type 0 where
  pub entity_links : List ExternalLinkInput
  pub reference_links : List ExternalLinkInput

unfoldable pub partition_by_data_presence : List ExternalLinkInput → Partition
partition_by_data_presence links = record {
  entity_links = filter (λ l. not (is_reference l)) links;
  reference_links = filter is_reference links;
}

-- `Math.abs(a - b) <= 1`
abbrev pub is_within_one : ℕ → ℕ → Bool
is_within_one a b = leb a (b + 1) && leb b (a + 1)

unfoldable pub filter_changed : List ExternalLink → ℕ → List ExternalLink
filter_changed results now = filter (λ x. is_within_one x.last_processed_at now) results

-- `a IS DISTINCT FROM b`
abbrev pub is_distinct_from : Option ℕ → Option ℕ → Bool
is_distinct_from none none = false
is_distinct_from none (some _) = true
is_distinct_from (some _) none = true
is_distinct_from (some a) (some b) = not (a == b)

-- The SET clause of the entity links: `lastProcessedAt` moves only if `updatedAt` does.
unfoldable pub set_entity_link : ExternalLink → ExternalLink → ExternalLink
set_entity_link old new = record old {
  last_processed_at =
      if is_distinct_from new.updated_at old.updated_at
      then new.last_processed_at
      else old.last_processed_at;
  updated_at = new.updated_at;
}

-- The SET clause of the reference links: `_tag` to itself.
abbrev pub set_reference_link : ExternalLink → ExternalLink → ExternalLink
set_reference_link old new = old

pub record LinkResults : Type 0 where
  pub changed : List ExternalLink
  pub results : List ExternalLink

pub record ProcessedLinks : Type 0 where
  pub all_external_links : List ExternalLink
  pub changed_external_links : List ExternalLink

abbrev pub both : LinkResults → LinkResults → ProcessedLinks
both e r = record {
  all_external_links = e.results ++ r.results;
  changed_external_links = e.changed ++ r.changed;
}

abbrev pub changed_of : Bool → ℕ → List ExternalLink → List ExternalLink
changed_of force now results = if force then results else filter_changed results now

-- `Array.map` with the counter of the ids, which every link advances.
abbrev pub values :
    (ℕ → ExternalLinkInput → ExternalLink) → ℕ → List ExternalLinkInput → List ExternalLink
values value n [] = []
values value n (link ∷ links) = value n link ∷ values value (suc n) links

module _ (rt : Runtime) (org : Text) where
  -- `Option.match({ onNone: () => now, onSome: (x) => new Date(x) })`
  date_or : ℕ → Option Text → ℕ
  date_or now none = now
  date_or now (some x) = rt.parse_date x

  -- `Option.getOrElse(() => getEntityId(entityType))`; the n-th id that is made
  id_or_new : ℕ → Text → Option Text → Text
  id_or_new n entity_type none = rt.new_id n entity_type
  id_or_new n entity_type (some id) = id

  -- `link.entityId || getEntityId(entityType)`
  id_or_new_falsy : ℕ → Text → Option Text → Text
  id_or_new_falsy n entity_type (some (c ∷ id)) = c ∷ id
  id_or_new_falsy n entity_type _ = rt.new_id n entity_type

  unfoldable pub entity_value : ℕ → ℕ → ExternalLinkInput → ExternalLink
  unfolding date_or id_or_new
  entity_value now n link = record {
    adapter = link.adapter;
    created_at = date_or now link.created_at;
    deleted_at = none;
    deleted_by = none;
    entity_id = id_or_new n link.entity_type link.entity_id;
    entity_type = link.entity_type;
    external_id = link.external_id;
    last_processed_at = now;
    org_id = org;
    syncing = false;
    updated_at = some (date_or now link.updated_at);
  }

  unfoldable pub reference_value : ℕ → ℕ → ExternalLinkInput → ExternalLink
  unfolding id_or_new_falsy
  reference_value now n link = record {
    adapter = link.adapter;
    created_at = now;
    deleted_at = none;
    deleted_by = none;
    entity_id = id_or_new_falsy n link.entity_type link.entity_id;
    entity_type = link.entity_type;
    external_id = link.external_id;
    last_processed_at = now;
    org_id = org;
    syncing = false;
    updated_at = some now;
  }

  -- `db.insert(externalLinksTable).values(…).onConflictDoUpdate(…).returning(…)`; the command that
  -- is refused fails with the error that `processExternalLinks` maps it to.
  unfoldable pub insert_links :
      (ExternalLink → ExternalLink → ExternalLink)
      → (ℕ → ExternalLinkInput → ExternalLink)
      → List ExternalLinkInput
      → ℕ
      → Exec (List ExternalLink)
  insert_links set value links count db =
      elim (upsert link_key same_link_key set (values value db.next_id links) db.links) [
        | none ↦ (fail (external_link_upsert count org), db)
        | some (results, table) ↦
            (ok results, record db { links = table; next_id = db.next_id + length links })
      ]

  -- `processEntityExternalLinks`
  unfoldable pub process_entity_links : ℕ → Bool → ℕ → List ExternalLinkInput → Exec LinkResults
  process_entity_links now force count [] = pure (record { changed = []; results = [] })
  process_entity_links now force count (l ∷ ls) = do
    results ← insert_links set_entity_link (entity_value now) (l ∷ ls) count
    pure (record { changed = changed_of force now results; results = results })

  -- `processReferenceExternalLinks`
  unfoldable pub process_reference_links : ℕ → Bool → ℕ → List ExternalLinkInput → Exec LinkResults
  process_reference_links now force count [] = pure (record { changed = []; results = [] })
  process_reference_links now force count (l ∷ ls) = do
    results ← insert_links set_reference_link (reference_value now) (l ∷ ls) count
    pure (record { changed = changed_of force now results; results = results })

  -- `processExternalLinks`. The two statements run concurrently: `entity_first` says which of them
  -- the database executes first. If that one fails, the other is interrupted.
  unfoldable pub process_external_links :
      (entity_first : Bool) → ℕ → Bool → List ExternalLinkInput → Exec ProcessedLinks
  process_external_links true now force links = do
    let parts = partition_by_data_presence links
    e ← process_entity_links now force (length links) parts.entity_links
    r ← process_reference_links now force (length links) parts.reference_links
    pure (both e r)
  process_external_links false now force links = do
    let parts = partition_by_data_presence links
    r ← process_reference_links now force (length links) parts.reference_links
    e ← process_entity_links now force (length links) parts.entity_links
    pure (both e r)
