-- ===== src/Pco/Webhooks/Getting.antt =====
-- `getSyncEntityId` for an entity type that Planning Center has no `get` for.
use openfaith.Common.{false, ◌≡◌, ap, sym, ◌∙◌, none, some, Option, Text, lit, Bool-cases, inl, inr}
use openfaith.Store.{Db, Error, adapter_method_not_found, Exit, ok, Exec, ◌>>=◌, pure, fails}
use openfaith.Store.Effects.{bind-ok}
use openfaith.SyncEngine.{Callbacks}
use openfaith.Pco.{
  PcoEntity, Response, EntityClient, Pco, pco, usable, require, get_entity_client, has_method,
}
use openfaith.Pco.Webhooks.{process_alt, fetched, process_response, sync_entity_id}

abbrev value {ℓ} : {A : Type ℓ} → Exit A × Db → Exit A
value r = r.0

-- A sequence whose last part never succeeds never does.
never-bind {ℓ} :
    {A B : Type ℓ} (m : Exec A) (k : A → Exec B)
    → ((a : A) (db : Db) (b : B) → value (k a db) ≡ ok b → ⊥)
    → (db : Db) (b : B) → value ((m >>= k) db) ≡ ok b
    → ⊥
never-bind m k never db b h =
    let (a, e) = bind-ok m k db b h in never a (m db).1 b (ap value (sym e) ∙ h)

-- A sequence that lacks what it requires first does not succeed.
never-require {ℓ} :
    {A B : Type ℓ} (e : Error) (k : A → Exec B) (db : Db) (b : B)
    → value ((require e none >>= k) db) ≡ ok b
    → ⊥
unfolding ◌>>=◌ fails
never-require e k db b h = cc h

-- Where the client has no `get` for an entity type, the sync of one entity of that type never
-- succeeds: whatever alternative data of the entity there is, whatever has been done with it, and
-- whatever the database holds.
pub sync_entity_id-never :
    (p : Pco) (org : Text) (callbacks : Callbacks) (entity_type id : Text) (alt : Option PcoEntity)
    (c : EntityClient) (db : Db)
    → p.client entity_type ≡ some c
    → c.get ≡ none
    → ¬ ((sync_entity_id p org callbacks entity_type id alt db).0 ≡ ok tt)
unfolding sync_entity_id get_entity_client usable ◌>>=◌ pure fails
sync_entity_id-never p org callbacks entity_type id alt c db found no_get =
    let e = adapter_method_not_found pco entity_type (lit "get") in
    let k : (Text → Option Response) → Exec (Unit {0}) = λ get.
      fetched p org entity_type (get id) alt >>= process_response p org callbacks entity_type in
    elim (Bool-cases (has_method c)) [
      | inl t ↦
          rw (found, t, no_get)
            (never-bind (process_alt p org callbacks entity_type false alt)
              (λ _. require e none >>= k) (λ _. never-require e k) db tt)
      | inr t ↦ rw (found, t) (λ e. cc e)
    ]
