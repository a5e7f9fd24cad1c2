-- ===== src/Links/Merged/Laws.antt =====
-- That the statements of `processExternalLinks` do what `merged` describes.
use openfaith.Common.{
  ℕ, suc, ◌≡◌, refl, ap, ◌∙◌, Bool, not, ◌&&◌, ◌||◌, List, [], ◌∷◌, Option, none, some, length,
  filter, arith, if◌then◌else◌, Bool-cases, inl, inr, Text,
}
use openfaith.Sql.{at_key}
use openfaith.Sql.Laws.{after}
use openfaith.Store.{ExternalLink, Runtime}
use openfaith.Store.Keys.{LinkKey, link_key, same_link_key}
use openfaith.Links.{
  ExternalLinkInput, is_falsy, date_or, id_or_new, id_or_new_falsy, is_reference, is_distinct_from,
  set_entity_link, set_reference_link, entity_value, reference_value, values,
  partition_by_data_presence,
}
use openfaith.Links.Merged.{
  has_text, is_dated, is_undated, count_of, is_updated_at, link_for, dated_row, undated_row,
  time_of, given_id, given_text,
}

falsy_both : (c u : Option Text) → (is_falsy c && is_falsy u) ≡ not (has_text c || has_text u)
falsy_both none none = refl
falsy_both none (some []) = refl
falsy_both none (some (_ ∷ _)) = refl
falsy_both (some []) none = refl
falsy_both (some []) (some []) = refl
falsy_both (some []) (some (_ ∷ _)) = refl
falsy_both (some (_ ∷ _)) u = refl

is_distinct_from-updated :
    (old : Option ℕ) (time a b : ℕ)
    → (if is_distinct_from (some time) old then a else b)
      ≡ (if is_updated_at old time then b else a)
is_distinct_from-updated none time a b = refl
is_distinct_from-updated (some old) time a b = ground arith

module _ (rt : Runtime) (org : Text) where
  -- The row that a statement brings for a key is made of the link for the key.
  abbrev row_of :
      (value : ℕ → ExternalLinkInput → ExternalLink)
      → Option (ExternalLinkInput × ℕ)
      → Option ExternalLink
  row_of value none = none
  row_of value (some (link, n)) = some (value n link)

  module _ (wanted taken : ExternalLinkInput → Bool)
      (agree : (l : ExternalLinkInput) → taken l ≡ wanted l) where
    length-taken :
        (links : List ExternalLinkInput) → length (filter taken links) ≡ count_of wanted links
    length-taken [] = refl
    length-taken (l ∷ ls) = elim (Bool-cases (wanted l)) [
      | inl e ↦ rw (agree l, e, length-taken ls) refl
      | inr e ↦ rw (agree l, e, length-taken ls) refl
    ]

    at_key-values :
        (value : ℕ → ExternalLinkInput → ExternalLink)
        (keyed : (n : ℕ) (l : ExternalLinkInput)
          → link_key (value n l) ≡ (org, l.adapter, l.external_id))
        (n : ℕ) (links : List ExternalLinkInput) (k : LinkKey)
        → at_key link_key same_link_key k (values value n (filter taken links))
          ≡ row_of value (link_for rt org wanted n links k)
    unfolding at_key
    at_key-values value keyed n [] k = refl
    at_key-values value keyed n (l ∷ ls) k = elim (Bool-cases (wanted l)) [
      | inl e ↦ elim (Bool-cases (same_link_key (org, l.adapter, l.external_id) k)) [
        | inl h ↦ rw (agree l, e, at_key, keyed n l, h) refl
        | inr h ↦ rw (agree l, e, at_key, keyed n l, h) (at_key-values value keyed (suc n) ls k)
      ]
      | inr e ↦ rw (agree l, e) (at_key-values value keyed n ls k)
    ]

  is_reference-undated : (l : ExternalLinkInput) → is_reference l ≡ is_undated l
  unfolding is_dated
  is_reference-undated l = falsy_both l.created_at l.updated_at

  is_entity-dated : (l : ExternalLinkInput) → not (is_reference l) ≡ is_dated l
  is_entity-dated l =
      rw (is_reference-undated l)
        (elim (Bool-cases (is_dated l)) [ inl e ↦ rw e refl | inr e ↦ rw e refl ])

  date_or-time_of :
      (now : ℕ) (date : Option Text) → date_or rt org now date ≡ time_of rt org now date
  unfolding date_or
  date_or-time_of now none = refl
  date_or-time_of now (some date) = refl

  id_or_new-given_id :
      (n : ℕ) (link : ExternalLinkInput) (id : Option Text)
      → id_or_new rt org n link.entity_type id ≡ given_id rt org n link id
  unfolding id_or_new
  id_or_new-given_id n link none = refl
  id_or_new-given_id n link (some id) = refl

  id_or_new_falsy-given_text :
      (n : ℕ) (link : ExternalLinkInput) (id : Option Text)
      → id_or_new_falsy rt org n link.entity_type id ≡ given_text rt org n link id
  unfolding id_or_new_falsy
  id_or_new_falsy-given_text n link none = refl
  id_or_new_falsy-given_text n link (some []) = refl
  id_or_new_falsy-given_text n link (some (c ∷ id)) = refl

  after-dated :
      (now : ℕ) (old : Option ExternalLink) (found : Option (ExternalLinkInput × ℕ))
      → after set_entity_link old (row_of (entity_value rt org now) found)
        ≡ dated_row rt org now old found
  unfolding set_entity_link entity_value
  after-dated now old none = refl
  after-dated now none (some (link, n)) =
      rw
        (
          entity_value,
          date_or-time_of now link.created_at,
          date_or-time_of now link.updated_at,
          id_or_new-given_id n link link.entity_id,
        )
        refl
  after-dated now (some old) (some (link, n)) =
      rw
        (
          set_entity_link,
          entity_value,
          date_or-time_of now link.updated_at,
          is_distinct_from-updated old.updated_at (time_of rt org now link.updated_at) now
              old.last_processed_at,
        )
        refl

  after-undated :
      (now : ℕ) (old : Option ExternalLink) (found : Option (ExternalLinkInput × ℕ))
      → after set_reference_link old (row_of (reference_value rt org now) found)
        ≡ undated_row rt org now old found
  unfolding reference_value
  after-undated now none none = refl
  after-undated now (some old) none = refl
  after-undated now none (some (link, n)) =
      rw (reference_value, id_or_new_falsy-given_text n link link.entity_id) refl
  after-undated now (some old) (some (link, n)) = refl

  -- A statement with the dated links of a list
  pub after-entity_links :
      (now n : ℕ) (links : List ExternalLinkInput) (k : LinkKey) (old : Option ExternalLink)
      → after set_entity_link old (
          at_key link_key same_link_key k
            (values (entity_value rt org now) n (partition_by_data_presence links).entity_links))
        ≡ dated_row rt org now old (link_for rt org is_dated n links k)
  unfolding partition_by_data_presence entity_value
  after-entity_links now n links k old =
      ap (after set_entity_link old) (
        at_key-values is_dated (λ l. not (is_reference l)) is_entity-dated (entity_value rt org now)
          (λ n l. refl) n links k)
      ∙ after-dated now old (link_for rt org is_dated n links k)

  -- A statement with the undated links of a list
  pub after-reference_links :
      (now n : ℕ) (links : List ExternalLinkInput) (k : LinkKey) (old : Option ExternalLink)
      → after set_reference_link old (
          at_key link_key same_link_key k (
            values
              (reference_value rt org now)
              n
              (partition_by_data_presence links).reference_links))
        ≡ undated_row rt org now old (link_for rt org is_undated n links k)
  unfolding partition_by_data_presence reference_value
  after-reference_links now n links k old =
      ap (after set_reference_link old) (
        at_key-values is_undated is_reference is_reference-undated (reference_value rt org now)
          (λ n l. refl) n links k)
      ∙ after-undated now old (link_for rt org is_undated n links k)

  pub length-entity_links :
      (links : List ExternalLinkInput)
      → length (partition_by_data_presence links).entity_links ≡ count_of is_dated links
  unfolding partition_by_data_presence
  length-entity_links links =
      length-taken is_dated (λ l. not (is_reference l)) is_entity-dated links

  pub length-reference_links :
      (links : List ExternalLinkInput)
      → length (partition_by_data_presence links).reference_links ≡ count_of is_undated links
  unfolding partition_by_data_presence
  length-reference_links links = length-taken is_undated is_reference is_reference-undated links
