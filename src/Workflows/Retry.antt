-- ===== src/Workflows/Retry.antt =====
-- Activities that are tried again.
use openfaith.Common.{ℕ, zero, suc, ◌≡◌, refl, sym, ◌∙◌, ap}
use openfaith.Store.{Db, Error, Exit, ok, fail, die, Exec}
use openfaith.Workflows.{else_again, retry}

module _ {ℓ} {A : Type ℓ} where
  fail≢ok : (f : Error) (a : A) → ¬ (fail f ≡ ok a)
  fail≢ok f a e = cc

  die≢ok : (a : A) → ¬ (die ≡ ok a)
  die≢ok a e = cc

module _ {ℓ} {A : Type ℓ} (m : Exec A) (db : Db) where
  -- Trying again what fails and changes nothing is to fail once.
  pub retry-fails : (times : ℕ) (e : Error) → m db ≡ (fail e, db) → retry times m db ≡ (fail e, db)
  unfolding retry
  retry-fails zero e h = h
  retry-fails (suc times) e h = rw h (retry-fails times e h)

  pub retry-ok :
      (times : ℕ) (a : A) (db' : Db) → m db ≡ (ok a, db') → retry times m db ≡ (ok a, db')
  unfolding retry
  retry-ok zero a db' e = e
  retry-ok (suc times) a db' e = rw e refl

  pub retry-dies : (times : ℕ) (db' : Db) → m db ≡ (die, db') → retry times m db ≡ (die, db')
  unfolding retry
  retry-dies zero db' e = e
  retry-dies (suc times) db' e = rw e refl

  value : Exit A × Db → Exit A
  value r = r.0

  -- When an attempt that fails changes nothing, what succeeds has succeeded at the first attempt.
  pub retry-first :
      (times : ℕ) (a : A) (x : Exit A) (db' : Db)
      → m db ≡ (x, db')
      → ((e : Error) → x ≡ fail e → db' ≡ db)
      → (retry times m db).0 ≡ ok a
      → (retry times m db ≡ m db) × (x ≡ ok a)
  unfolding value
  retry-first times a (ok b) db' e keeps h =
      let again = retry-ok times b db' e in (again ∙ sym e, sym (ap value again) ∙ h)
  retry-first times a (fail f) db' e keeps h =
      let fails : m db ≡ (fail f, db) = e ∙ ap (λ d. (fail f, d)) (keeps f refl) in
      absurd (fail≢ok f a (sym (ap value (retry-fails times f fails)) ∙ h))
  retry-first times a die db' e keeps h =
      absurd (die≢ok a (sym (ap value (retry-dies times db' e)) ∙ h))

module _ {ℓ} {A : Type ℓ} (m : Exec A) where
  -- So many attempts at most fail, and leave a database for the next one.
  pub data Failed : ℕ → Db → Db → Type ℓ where
    no_more : {n : ℕ} {db : Db} → Failed n db db
    once_more :
        {n : ℕ} {db db' : Db} {e : Error}
        → (m db).0 ≡ fail e
        → Failed n (m db).1 db'
        → Failed (suc n) db db'

  -- The attempt that succeeded, after those that failed.
  abbrev pub Attempt : ℕ → A → Db → Exit A × Db → Type ℓ
  Attempt n a db r = (tried : Db) × Failed n db tried × ((m tried).0 ≡ ok a) × (r ≡ m tried)

  else_again-Attempt :
      (n : ℕ) (a : A) (again : Exec A) (db : Db) (x : Exit A) (db' : Db)
      → ((d : Db) → (again d).0 ≡ ok a → Attempt n a d (again d))
      → m db ≡ (x, db')
      → (else_again again x db').0 ≡ ok a
      → Attempt (suc n) a db (else_again again x db')
  else_again-Attempt n a again db (ok b) db' later e h = (db, no_more, ap (λ r. r.0) e ∙ h, sym e)
  else_again-Attempt n a again db (fail f) db' later e h =
      let (tried, failed, done, same) = later db' h in
      (tried, once_more (ap (λ r. r.0) e) (rw (ap (λ (r : Exit A × Db). r.1) e) failed), done, same)
  else_again-Attempt n a again db die db' later e h = cc

  -- What succeeds has succeeded at some attempt, after at most `times` that failed.
  pub retry-Attempt :
      (times : ℕ) (a : A) (db : Db)
      → (retry times m db).0 ≡ ok a
      → Attempt times a db (retry times m db)
  unfolding retry
  retry-Attempt zero a db h = (db, no_more, h, refl)
  retry-Attempt (suc times) a db h =
      else_again-Attempt times a (retry times m) db (m db).0 (m db).1 (λ d. retry-Attempt times a d)
        refl h
