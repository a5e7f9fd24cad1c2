-- ===== src/Tests/Tables.antt =====
-- The theorems on the internal manager, on the example tables.
use openfaith.Common.{true, false, ◌≡◌, refl, List, [], ◌∷◌, if◌then◌else◌, lit, ◌===◌}
use openfaith.Sql.{at_key}
use mathlib.Core.Option
use openfaith.Store.{CustomField, Exit, ok}
use openfaith.Store.Effects.{Ensures}
use openfaith.Store.Keys.{same_link_key}
use openfaith.Links.{ExternalLinkInput, ProcessedLinks, process_external_links}
use openfaith.Links.AsMap.{link_at-process_external_links}
use openfaith.Links.Merged.{merged}
use openfaith.Links.Laws.{KeepsLinks, HasUniqueLinks, link_at, process_external_links-keeps}
use openfaith.Links.Stamp.{KeepsLink, process_external_links-stamp}
use openfaith.Deletion.{mark_link, is_stale, detect_and_mark_deleted}
use openfaith.Deletion.Laws.{link_at-detect}
use openfaith.Pco.{pco}
use openfaith.Tests.{org, person, runtime, field, db, input}

process_external_links-keeps_example :
    Ensures KeepsLinks
      (process_external_links runtime org true 9 false (input b'x' b'c' ∷ input b'w' b'c' ∷ []))
process_external_links-keeps_example =
    process_external_links-keeps runtime org true 9 false (input b'x' b'c' ∷ input b'w' b'c' ∷ [])

process_external_links-stamp_example :
    Ensures
      (KeepsLink (org, pco, b'x' ∷ []) 97)
      (process_external_links runtime org true 9 false (input b'x' b'a' ∷ input b'w' b'c' ∷ []))
unfolding pco lit ◌===◌ same_link_key
process_external_links-stamp_example =
    process_external_links-stamp runtime org (org, pco, b'x' ∷ []) 97 true 9 false
      (input b'x' b'a' ∷ input b'w' b'c' ∷ []) (refl, (refl, tt))

abbrev two_links : List ExternalLinkInput
two_links = input b'x' b'c' ∷ input b'w' b'c' ∷ []

abbrev processed_of : Exit ProcessedLinks → ProcessedLinks
processed_of (ok p) = p
processed_of _ = record { all_external_links = []; changed_external_links = [] }

processed : ProcessedLinks
processed = processed_of (process_external_links runtime org true 9 false two_links db).0

link_at-process_external_links_example :
    link_at (org, pco, b'x' ∷ []) (process_external_links runtime org true 9 false two_links db).1
    ≡ merged runtime org true 9 two_links db.next_id
        (org, pco, b'x' ∷ [])
        (link_at (org, pco, b'x' ∷ []) db)
unfolding process_external_links processed openfaith.Store.◌>>=◌
    openfaith.Links.process_entity_links openfaith.Links.partition_by_data_presence
    openfaith.Links.insert_links openfaith.Sql.upsert openfaith.Sql.has_distinct_keys same_link_key
    ◌===◌ openfaith.Links.entity_value pco lit openfaith.Store.pure
    openfaith.Links.process_reference_links
link_at-process_external_links_example =
    link_at-process_external_links runtime org true 9 false two_links db processed
      (org, pco, b'x' ∷ []) refl

pub db-HasUniqueLinks : HasUniqueLinks db
unfolding at_key same_link_key ◌===◌ pco lit
db-HasUniqueLinks = (refl, (refl, (refl, tt)))

link_at-detect_example :
    link_at (org, pco, b'x' ∷ []) (detect_and_mark_deleted org 9 pco person 7 db).1
    ≡ Option.map
        (λ l. if is_stale org pco person 7 l then mark_link 9 l else l)
        (link_at (org, pco, b'x' ∷ []) db)
link_at-detect_example =
    link_at-detect org pco person 7 9 db (org, pco, b'x' ∷ []) db-HasUniqueLinks

abbrev old_fields : List CustomField
old_fields = field pco (b'm' ∷ []) ∷ field (b'q' ∷ []) (b'n' ∷ []) ∷ []
