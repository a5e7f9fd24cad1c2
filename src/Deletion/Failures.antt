-- ===== src/Deletion/Failures.antt =====
-- `deleteEntity` does not fail.
use openfaith.Common.{ℕ, Option, none, some, Text}
use openfaith.Store.{ExternalLink, Error, Runtime}
use openfaith.Store.Failures.{FailsWith, failure_rules}
use openfaith.Deletion.{mark_in, delete_found, delete_entity_id, delete_entity}

mark_in-FailsWith :
    {P : Error → Type 0} (rt : Runtime) (org : Text) (now : ℕ) (id adapter : Text)
    (table : Option Text)
    → FailsWith P (mark_in rt org now id adapter table)
unfolding mark_in
mark_in-FailsWith rt org now id adapter none = search failure_rules
mark_in-FailsWith rt org now id adapter (some table) = search failure_rules

pub delete_entity_id-FailsWith :
    {P : Error → Type 0} (rt : Runtime) (org : Text) (now : ℕ)
    (entity_id entity_type adapter : Text)
    → FailsWith P (delete_entity_id rt org now entity_id entity_type adapter)
unfolding delete_entity_id
delete_entity_id-FailsWith rt org now entity_id entity_type adapter =
    mark_in-FailsWith rt org now entity_id adapter _

delete_found-FailsWith :
    {P : Error → Type 0} (rt : Runtime) (org : Text) (now : ℕ) (adapter : Text)
    (link : Option ExternalLink)
    → FailsWith P (delete_found rt org now adapter link)
unfolding delete_found
delete_found-FailsWith rt org now adapter none = search failure_rules
delete_found-FailsWith rt org now adapter (some link) =
    search (failure_rules, delete_entity_id-FailsWith)

pub delete_entity-FailsWith :
    {P : Error → Type 0} (rt : Runtime) (org : Text) (now : ℕ) (external_id adapter : Text)
    → FailsWith P (delete_entity rt org now external_id adapter)
unfolding delete_entity
delete_entity-FailsWith rt org now external_id adapter =
    search (failure_rules, delete_found-FailsWith)
