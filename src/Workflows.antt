-- ===== src/Workflows.antt =====
-- The workflows of backend/workers/workflows: activities that are tried again when they fail.
pub mod Retry
pub mod People
pub mod Sync
pub mod Webhook
pub mod Push
pub mod Seed
use openfaith.Common.{ℕ, zero, suc, List, [], ◌∷◌, Option, none, some}
use openfaith.Store.{Db, Error, Exit, ok, fail, die, Exec, ◌>>=◌, ◌>>◌, pure, fails}

-- A first attempt that ended, and the other attempts at it. A defect is no failure.
abbrev pub else_again {ℓ} : {A : Type ℓ} → Exec A → Exit A → Exec A
else_again again (ok a) db = (ok a, db)
else_again again (fail e) db = again db
else_again again die db = (die, db)

-- `Activity.retry({ times })`: what an attempt did before it failed stays done.
unfoldable pub retry {ℓ} : {A : Type ℓ} → ℕ → Exec A → Exec A
retry zero m = m
retry (suc times) m = let again = retry times m in λ db. else_again again (m db).0 (m db).1

-- An activity of the workflows
abbrev pub activity {ℓ} : {A : Type ℓ} → Exec A → Exec A
activity m = retry 3 m

-- `Effect.forEach`: the first failure ends it.
unfoldable pub for_each {ℓ} : {A : Type ℓ} → (A → Exec (Unit {0})) → List A → Exec (Unit {0})
for_each f [] = pure tt
for_each f (x ∷ xs) = f x >> for_each f xs
