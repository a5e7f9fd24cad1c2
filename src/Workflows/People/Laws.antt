-- ===== src/Workflows/People/Laws.antt =====
-- What `mapUserToPerson` of backend/workers/workflows/externalSyncWorkflow.ts does when a sync is run
-- again.
use openfaith.Common.{
  ℕ, ◌≡◌, refl, arith, ap, ◌∙◌, sym, Bool, true, List, [], ◌∷◌, ◌++◌, ◌&&◌, ◌===◌, lit, map, Option,
  none, some, Text, head?, filter, Bool-cases, inl, inr,
}
use openfaith.Sql.{select, at_key}
use openfaith.Store.{Edge, Entity, Db, Error, external_sync, ok, fail, ◌>>=◌, reads, dies}
use openfaith.Store.Keys.{edge_key, same_edge_key, same_edge_key_iff}
use openfaith.Relations.{flat_map}
use openfaith.EdgeDirection.{EdgeDirection, decode}
use openfaith.Workflows.{activity}
use openfaith.Workflows.Retry.{retry-fails, retry-first}
use openfaith.Workflows.People.{
  flat, or_null, people_of, edges_of, user_email, person_ids, person_id, user_edge, inserting,
  insert_edge, link_person, link_found, map_user_to_person,
}

abbrev first_of : List (Option Text) → Option Text
first_of [] = none
first_of (x ∷ xs) = x

flat-or_null : (xs zs : List (Option Text)) → flat (head? (or_null xs ++ zs)) ≡ first_of xs
flat-or_null [] zs = refl
flat-or_null (x ∷ xs) zs = refl

-- The person that the first of some edges leads to.
abbrev first_person : List Entity → List Edge → Option Text
first_person entities [] = none
first_person entities (e ∷ es) = first_of (
    map (λ (p : Entity). some p.id)
      (select (λ (p : Entity). p.table === lit "people" && p.id === e.target_entity_id) entities))

flat-people_of :
    (entities : List Entity) (found : List Edge) (rest : List (Option Edge))
    → flat (head? (flat_map (people_of entities) (or_null (map some found) ++ rest)))
      ≡ first_person entities found
unfolding people_of
flat-people_of entities [] rest = refl
flat-people_of entities (e ∷ es) rest =
    flat-or_null
      (map (λ (p : Entity). some p.id)
        (select (λ (p : Entity). p.table === lit "people" && p.id === e.target_entity_id) entities))
      (flat_map (people_of entities) (map some es ++ rest))

-- The first email decides.
abbrev by_email : List Entity → List Edge → List Entity → Option Text
by_email entities edges [] = none
by_email entities edges (m ∷ ms) =
    first_person entities (select (λ (e : Edge). m.id === e.source_entity_id) edges)

flat-by_email :
    (entities : List Entity) (edges : List Edge) (emails : List Entity)
    → flat (head? (flat_map (people_of entities) (flat_map (edges_of edges) emails)))
      ≡ by_email entities edges emails
unfolding edges_of
flat-by_email entities edges [] = refl
flat-by_email entities edges (m ∷ ms) = flat-people_of entities _ _

filter-append {ℓ} :
    {A : Type ℓ} (p : A → Bool) (xs ys : List A) → filter p (xs ++ ys) ≡ filter p xs ++ filter p ys
filter-append p [] ys = refl
filter-append p (x ∷ xs) ys = elim (Bool-cases (p x)) [
  | inl t ↦ rw t (ap (λ zs. x ∷ zs) (filter-append p xs ys))
  | inr f ↦ rw f (filter-append p xs ys)
]

first_person-append :
    (entities : List Entity) (found more : List Edge) (person : Text)
    → first_person entities found ≡ some person
    → first_person entities (found ++ more) ≡ some person
first_person-append entities [] more person h = cc
first_person-append entities (e ∷ es) more person h = h

by_email-append :
    (entities : List Entity) (edges more : List Edge) (emails : List Entity) (person : Text)
    → by_email entities edges emails ≡ some person
    → by_email entities (edges ++ more) emails ≡ some person
by_email-append entities edges more [] person h = h
by_email-append entities edges more (m ∷ ms) person h =
    rw (filter-append (λ (e : Edge). m.id === e.source_entity_id) edges more)
      (first_person-append entities _ _ person h)

-- More edges do not change the person that a user is found to be.
person_id-append :
    (user_id person : Text) (db : Db) (more : List Edge)
    → person_id user_id db ≡ some person
    → person_id user_id (record db { edges = db.edges ++ more }) ≡ some person
unfolding person_id person_ids user_email
person_id-append user_id person db more h =
    flat-by_email db.entities (db.edges ++ more) _
    ∙ by_email-append db.entities db.edges more _ person
        (sym (flat-by_email db.entities db.edges _) ∙ h)

same_edge_key_refl : (e : Edge) → same_edge_key (edge_key e) (edge_key e) ≡ true
same_edge_key_refl e = (same_edge_key_iff (edge_key e) (edge_key e)).1 refl

at_key-append :
    (edges : List Edge) (e : Edge)
    → at_key edge_key same_edge_key (edge_key e) edges ≡ none
    → at_key edge_key same_edge_key (edge_key e) (edges ++ e ∷ []) ≡ some e
unfolding at_key
at_key-append [] e h = rw (same_edge_key_refl e) refl
at_key-append (x ∷ xs) e h = ground (arith, at_key-append xs e)

-- The row with the key of an edge is in the table after an insert of the edge that succeeds.
inserted :
    (error : Error) (e : Edge) (db : Db) (old : Option Edge)
    → at_key edge_key same_edge_key (edge_key e) db.edges ≡ old
    → (inserting error e db old).0 ≡ ok tt
    → (at_key edge_key same_edge_key (edge_key e) (inserting error e db old).1.edges ≡ some e)
      × ((inserting error e db old).1 ≡ record db { edges = db.edges ++ e ∷ [] })
inserted error e db none free h = (at_key-append db.edges e free, refl)
inserted error e db (some old) taken h = cc

inserting-keeps :
    (error : Error) (e : Edge) (db : Db) (old : Option Edge) (f : Error)
    → (inserting error e db old).0 ≡ fail f
    → (inserting error e db old).1 ≡ db
inserting-keeps error e db none f h = cc
inserting-keeps error e db (some old) f h = refl

module _ (clock : Db → ℕ) (org_id : Text) where
  -- The key of the edge does not depend on the time.
  link_person-again :
      (now later : ℕ) (d : EdgeDirection) (old : Edge) (db : Db)
      → at_key edge_key same_edge_key (edge_key (user_edge org_id now d)) db.edges ≡ some old
      → insert_edge external_sync (user_edge org_id later d) db ≡ (fail external_sync, db)
  unfolding insert_edge user_edge
  link_person-again now later d old db h =
      ap (inserting external_sync (user_edge org_id later d) db) h

  link_found-again :
      (user_id person : Text) (now later : ℕ) (d : Option EdgeDirection) (db : Db)
      → person_id user_id db ≡ some person
      → (link_person org_id now d db).0 ≡ ok tt
      → let db' = (link_person org_id now d db).1 in
        (person_id user_id db' ≡ some person)
        × (link_person org_id later d db' ≡ (fail external_sync, db'))
  unfolding insert_edge dies
  link_found-again user_id person now later none db found h = cc
  link_found-again user_id person now later (some d) db found h =
      let (there, e) = inserted external_sync (user_edge org_id now d) db _ refl h in
      (
        rw e (person_id-append user_id person db (user_edge org_id now d ∷ []) found),
        link_person-again now later d (user_edge org_id now d) _ there,
      )

  -- The activity after its first attempt has found the person.
  link_again :
      (user_id person : Text) (now : ℕ) (db : Db)
      → person_id user_id db ≡ some person
      → (link_person org_id now (decode user_id person) db).0 ≡ ok tt
      → let db' = (link_person org_id now (decode user_id person) db).1 in
        link_found org_id user_id (clock db') (person_id user_id db') db'
        ≡ (fail external_sync, db')
  link_again user_id person now db found h =
      let (still, again) =
        link_found-again user_id person now
          (clock (link_person org_id now (decode user_id person) db).1) (decode user_id person) db
          found h in
      rw still again

  link_person-keeps :
      (now : ℕ) (d : Option EdgeDirection) (db : Db) (e : Error)
      → (link_person org_id now d db).0 ≡ fail e
      → (link_person org_id now d db).1 ≡ db
  unfolding insert_edge dies
  link_person-keeps now none db e h = refl
  link_person-keeps now (some d) db e h =
      inserting-keeps external_sync (user_edge org_id now d) db _ e h

  -- The link of a user whose email leads to a person, when it has succeeded: the same activity, run again
  -- on the database that it leaves, fails at every attempt and changes nothing.
  pub map_user_to_person-again :
      (c : ℕ) (user person : Text) (db : Db)
      → person_id (c ∷ user) db ≡ some person
      → (activity (map_user_to_person clock org_id (some (c ∷ user))) db).0 ≡ ok tt
      → let db' = (activity (map_user_to_person clock org_id (some (c ∷ user))) db).1 in
        activity (map_user_to_person clock org_id (some (c ∷ user))) db' ≡ (fail external_sync, db')
  unfolding map_user_to_person ◌>>=◌ reads
  map_user_to_person-again c user person db found h =
      let d = decode (c ∷ user) person in
      let first : map_user_to_person clock org_id (some (c ∷ user)) db
          ≡ link_person org_id (clock db) d db =
        ap (λ o. link_found org_id (c ∷ user) (clock db) o db) found in
      let (once, h') =
        retry-first (map_user_to_person clock org_id (some (c ∷ user))) db 3 tt
          (link_person org_id (clock db) d db).0 (link_person org_id (clock db) d db).1 first
          (link_person-keeps (clock db) d db) h in
      rw (once ∙ first) (
        retry-fails (map_user_to_person clock org_id (some (c ∷ user))) _ 3 external_sync
          (link_again (c ∷ user) person (clock db) db found h'))
