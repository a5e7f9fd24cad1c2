-- ===== src/Store/Failures.antt =====
-- The failures that an effect can end with.
use openfaith.Common.{◌≡◌}
use openfaith.Store.{
  Db, Error, Exit, ok, fail, die, Exec, resume, ◌>>=◌, pure, fails, dies, reads, writes,
}

-- Every failure of `m` is one of `P`.
pub record FailsWith {ℓ} {A : Type ℓ} (P : Error → Type 0) (m : Exec A) : Type ℓ where
  pub at : (db : Db) (e : Error) → (m db).0 ≡ fail e → P e

abbrev failed {ℓ} : (A : Type ℓ) → Error → Exit A
failed A e = fail e

pub fail_injective {ℓ} : (A : Type ℓ) (e e' : Error) → failed A e ≡ failed A e' → e ≡ e'
fail_injective A e e' h = cc

module _ {P : Error → Type 0} where
  pub FailsWith-pure {ℓ} : {A : Type ℓ} (a : A) → FailsWith P (pure a)
  unfolding pure
  FailsWith-pure a = record { at = λ db e h. cc }

  pub FailsWith-dies {ℓ} : {A : Type ℓ} → FailsWith P (dies {A = A})
  unfolding dies
  FailsWith-dies = record { at = λ db e h. cc }

  pub FailsWith-reads {ℓ} : {A : Type ℓ} (f : Db → A) → FailsWith P (reads f)
  unfolding reads
  FailsWith-reads f = record { at = λ db e h. cc }

  pub FailsWith-writes : (f : Db → Db) → FailsWith P (writes f)
  unfolding writes
  FailsWith-writes f = record { at = λ db e h. cc }

  pub FailsWith-fails {ℓ} : {A : Type ℓ} (e : Error) → P e → FailsWith P (fails {A = A} e)
  unfolding fails
  FailsWith-fails {A = A} e p = record { at = λ db e' h. rw (← fail_injective A e e' h) p }

  FailsWith-resume {ℓ} :
      {A B : Type ℓ} (k : A → Exec B)
      → ((a : A) → FailsWith P (k a))
      → (r : Exit A) (db : Db) → ((e : Error) → r ≡ fail e → P e)
      → (e : Error) → (resume k r db).0 ≡ fail e
      → P e
  FailsWith-resume k fk (ok a) db h e h' = (fk a).at db e h'
  FailsWith-resume k fk (fail e) db h e' h' = h e' (cc)
  FailsWith-resume k fk die db h e h' = cc

  pub FailsWith-bind {ℓ} :
      {A B : Type ℓ} (m : Exec A) (k : A → Exec B)
      → FailsWith P m
      → ((a : A) → FailsWith P (k a))
      → FailsWith P (m >>= k)
  unfolding ◌>>=◌
  FailsWith-bind m k fm fk = record {
    at = λ db. FailsWith-resume k fk (m db).0 (m db).1 (fm.at db);
  }

pub ruleset failure_rules =
    (FailsWith-pure, FailsWith-dies, FailsWith-reads, FailsWith-writes, FailsWith-bind)
