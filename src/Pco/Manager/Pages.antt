-- ===== src/Pco/Manager/Pages.antt =====
-- The pages that a sync reads: `syncEntityType` of adapters/pco/pcoAdapterManagerLive.ts, held against the
-- list of the pages that Planning Center has.
use openfaith.Common.{
  ℕ, zero, suc, ◌+◌, ◌≤◌, Bool, true, false, ◌≡◌, refl, ap, List, [], ◌∷◌, Option, none, some,
  length, Text, lit, arith,
}
use openfaith.Store.{adapter_fetch, adapter_transform, Exec, ◌>>=◌, ◌>>◌, pure, fails}
use openfaith.SyncEngine.{Callbacks}
use openfaith.Pco.{
  EntityClient, Page, Pco, pco, get_entity_client, usable, has_method, map_error,
  normalize_response, process_pco_data,
}
use openfaith.Pco.Manager.{sync_pages, sync_entity_type}

-- The pages that follow one another from an offset on, each naming the offset of the next. The list
-- ends with a page that names none, or breaks off where a request fails.
pub data Pages (method : ℕ → Option Page) : ℕ → List Page → (complete : Bool) → Type 0 where
  fails_at : {offset : ℕ} → method offset ≡ none → Pages method offset [] false
  last :
      {offset : ℕ} {page : Page}
      → method offset ≡ some page
      → page.next_offset ≡ none
      → Pages method offset (page ∷ []) true
  last_at_zero :
      {offset : ℕ} {page : Page}
      → method offset ≡ some page
      → page.next_offset ≡ some 0
      → Pages method offset (page ∷ []) true
  next :
      {offset n : ℕ} {page : Page} {pages : List Page} {complete : Bool}
      → method offset ≡ some page
      → page.next_offset ≡ some (suc n)
      → Pages method (suc n) pages complete
      → Pages method offset (page ∷ pages) complete

module _ (p : Pco) (org : Text) (callbacks : Callbacks) (entity_type : Text) where
  -- Every page is processed, in order, until one fails; a list that breaks off fails at its end.
  abbrev pub process_all : List Page → (complete : Bool) → Exec (Unit {0})
  process_all [] true = pure tt
  process_all [] false = fails (adapter_fetch pco entity_type (lit "list"))
  process_all (page ∷ pages) complete =
      map_error (adapter_transform pco entity_type)
        (process_pco_data p callbacks org (normalize_response p page.response) false)
      >> process_all pages complete

  sync_pages-Pages :
      (method : ℕ → Option Page) (fuel offset : ℕ) (pages : List Page) (complete : Bool)
      → Pages method offset pages complete
      → length pages + 1 ≤ fuel
      → sync_pages p org callbacks entity_type method fuel offset ≡ process_all pages complete
  unfolding sync_pages ◌>>=◌ pure fails
  sync_pages-Pages method zero offset pages complete h enough = absurd (omega (arith, enough))
  sync_pages-Pages method (suc fuel) offset _ _ (fails_at e) enough = rw e refl
  sync_pages-Pages method (suc fuel) offset _ _ (last e n) enough = rw (e, n) refl
  sync_pages-Pages method (suc fuel) offset _ _ (last_at_zero e n) enough = rw (e, n) refl
  sync_pages-Pages method (suc fuel) offset _ _
        (next {n = n} {page = page} {pages = pages} {complete = complete} e m h) enough =
      rw (e, m)
        (ap
          (λ (k : Exec (Unit {0})).
            map_error (adapter_transform pco entity_type)
              (process_pco_data p callbacks org (normalize_response p page.response) false)
            >> k)
          (sync_pages-Pages method fuel (suc n) pages complete h (omega (arith, enough))))

  -- Suppose that Planning Center has a list of an entity type. Then the sync of the type, with fuel for
  -- one request more than there are pages, processes every page from the first on, in order, each on the
  -- database that the one before it left, until one fails; and where the list breaks off with a request
  -- that fails, the sync has processed the pages before and fails.
  pub sync_entity_type-Pages :
      (fuel : ℕ) (c : EntityClient) (method : ℕ → Option Page) (pages : List Page) (complete : Bool)
      → p.client entity_type ≡ some c
      → c.list ≡ some method
      → Pages method 0 pages complete
      → length pages + 1 ≤ fuel
      → sync_entity_type p org fuel callbacks entity_type ≡ process_all pages complete
  unfolding sync_entity_type get_entity_client usable has_method ◌>>=◌ pure fails
  sync_entity_type-Pages fuel c method pages complete found list h enough =
      rw (found, list) (sync_pages-Pages method fuel 0 pages complete h enough)
