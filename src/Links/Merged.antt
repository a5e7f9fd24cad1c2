-- ===== src/Links/Merged.antt =====
-- What a list of links means for the row with one primary key, told without statements and tables: the
-- description that `processExternalLinks` of backend/server/live/internalManagerLive.ts is held against.
pub mod Laws
use openfaith.Common.{
  ℕ, suc, ◌+◌, ◌≡◌, refl, ap, ◌∙◌, Bool, true, false, not, ◌&&◌, ◌||◌, List, [], ◌∷◌, Option, none,
  some, length, filter, arith, if◌then◌else◌, ◌==◌, Bool-cases, inl, inr, Text,
}
use openfaith.Sql.{at_key}
use openfaith.Sql.Laws.{after}
use openfaith.Store.{ExternalLink, Runtime}
use openfaith.Store.Keys.{LinkKey, link_key, same_link_key}
use openfaith.Links.{
  ExternalLinkInput, is_falsy, date_or, id_or_new, id_or_new_falsy, is_reference, is_distinct_from,
  set_entity_link, set_reference_link, entity_value, reference_value, values,
  partition_by_data_presence,
}

abbrev pub has_text : Option Text → Bool
has_text none = false
has_text (some []) = false
has_text (some (_ ∷ _)) = true

-- The link says when its entity was created or updated.
unfoldable pub is_dated : ExternalLinkInput → Bool
is_dated link = has_text link.created_at || has_text link.updated_at

abbrev pub is_undated : ExternalLinkInput → Bool
is_undated link = not (is_dated link)

-- How many links of the list are wanted.
abbrev pub count_of : (wanted : ExternalLinkInput → Bool) → List ExternalLinkInput → ℕ
count_of wanted [] = 0
count_of wanted (l ∷ ls) = let rest = count_of wanted ls in if wanted l then suc rest else rest

-- A stored row is at a time.
abbrev pub is_updated_at : Option ℕ → ℕ → Bool
is_updated_at none time = false
is_updated_at (some old) time = time == old

module _ (rt : Runtime) (org : Text) where
  -- The first wanted link with the key, and the number that a new id would have there: every wanted
  -- link before it takes one.
  abbrev pub link_for :
      (wanted : ExternalLinkInput → Bool)
      → ℕ
      → List ExternalLinkInput
      → LinkKey
      → Option (ExternalLinkInput × ℕ)
  link_for wanted n [] k = none
  link_for wanted n (l ∷ ls) k =
      let next = link_for wanted (suc n) ls k in
      let same = link_for wanted n ls k in
      if wanted l
      then if same_link_key (org, l.adapter, l.external_id) k then some (l, n) else next
      else same

  abbrev pub time_of : (now : ℕ) → Option Text → ℕ
  time_of now none = now
  time_of now (some date) = rt.parse_date date

  -- A row that is new: live, at the given dates, processed now.
  abbrev pub new_row : (now created updated : ℕ) (id : Text) → ExternalLinkInput → ExternalLink
  new_row now created updated id link = record {
    adapter = link.adapter;
    created_at = created;
    deleted_at = none;
    deleted_by = none;
    entity_id = id;
    entity_type = link.entity_type;
    external_id = link.external_id;
    last_processed_at = now;
    org_id = org;
    syncing = false;
    updated_at = some updated;
  }

  -- The given id, or a new one
  abbrev pub given_id : ℕ → ExternalLinkInput → Option Text → Text
  given_id n link none = rt.new_id n link.entity_type
  given_id n link (some id) = id

  -- The given id, if it is not empty, or a new one
  abbrev pub given_text : ℕ → ExternalLinkInput → Option Text → Text
  given_text n link none = rt.new_id n link.entity_type
  given_text n link (some []) = rt.new_id n link.entity_type
  given_text n link (some (c ∷ id)) = c ∷ id

  -- A row that exists takes over when it was updated, and counts as processed now if this is another
  -- time than before; all else stays.
  abbrev pub dated_row :
      (now : ℕ) → Option ExternalLink → Option (ExternalLinkInput × ℕ) → Option ExternalLink
  dated_row now old none = old
  dated_row now none (some (link, n)) = some (
      new_row now (time_of now link.created_at) (time_of now link.updated_at)
        (given_id n link link.entity_id) link)
  dated_row now (some old) (some (link, n)) =
      let time = time_of now link.updated_at in
      some (record old {
        last_processed_at =
            if is_updated_at old.updated_at time then old.last_processed_at else now;
        updated_at = some time;
      })

  -- A row that exists is not touched.
  abbrev pub undated_row :
      (now : ℕ) → Option ExternalLink → Option (ExternalLinkInput × ℕ) → Option ExternalLink
  undated_row now (some old) found = some old
  undated_row now none none = none
  undated_row now none (some (link, n)) =
      some (new_row now now now (given_text n link link.entity_id) link)

  -- The row with a key after a list of links, from the row before it, when the next id has the number
  -- n, and when the dated links are stored first or the undated ones are.
  unfoldable pub merged :
      (entity_first : Bool) (now : ℕ) (links : List ExternalLinkInput) (n : ℕ) (k : LinkKey)
      → Option ExternalLink
      → Option ExternalLink
  merged true now links n k old =
      undated_row now (dated_row now old (link_for is_dated n links k))
        (link_for is_undated (n + count_of is_dated links) links k)
  merged false now links n k old =
      dated_row now (undated_row now old (link_for is_undated n links k))
        (link_for is_dated (n + count_of is_undated links) links k)
