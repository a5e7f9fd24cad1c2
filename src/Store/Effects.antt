-- ===== src/Store/Effects.antt =====
-- Relations between the database before and after an effect, however it ends.
use openfaith.Common.{◌≡◌, refl, ◌∙◌}
use openfaith.Store.{Db, Error, Exit, ok, fail, die, Exec, resume, ◌>>=◌, pure, fails, dies, reads}

-- A relation that holds of doing nothing, and of one step after another.
pub record IsPreorder (R : Db → Db → Type 0) : Type 0 where
  pub reflexive : (db : Db) → R db db
  pub transitive : (a b c : Db) → R a b → R b c → R a c

-- Every run of `m` relates the databases.
pub record Ensures {ℓ} {A : Type ℓ} (R : Db → Db → Type 0) (m : Exec A) : Type ℓ where
  pub at : (db : Db) → R db (m db).1

module _ {R : Db → Db → Type 0} (o : IsPreorder R) where
  pub Ensures-pure {ℓ} : {A : Type ℓ} (a : A) → Ensures R (pure a)
  unfolding pure
  Ensures-pure a = record { at = o.reflexive }

  pub Ensures-fails {ℓ} : {A : Type ℓ} (e : Error) → Ensures R (fails {A = A} e)
  unfolding fails
  Ensures-fails e = record { at = o.reflexive }

  pub Ensures-dies {ℓ} : {A : Type ℓ} → Ensures R (dies {A = A})
  unfolding dies
  Ensures-dies = record { at = o.reflexive }

  pub Ensures-reads {ℓ} : {A : Type ℓ} (f : Db → A) → Ensures R (reads f)
  unfolding reads
  Ensures-reads f = record { at = o.reflexive }

  Ensures-resume {ℓ} :
      {A B : Type ℓ} (k : A → Exec B)
      → ((a : A) → Ensures R (k a))
      → (r : Exit A) (db : Db) → R db (resume k r db).1
  Ensures-resume k ek (ok a) db = (ek a).at db
  Ensures-resume k ek (fail e) db = o.reflexive db
  Ensures-resume k ek die db = o.reflexive db

  pub Ensures-bind {ℓ} :
      {A B : Type ℓ} (m : Exec A) (k : A → Exec B)
      → Ensures R m
      → ((a : A) → Ensures R (k a))
      → Ensures R (m >>= k)
  unfolding ◌>>=◌
  Ensures-bind m k em ek = record {
    at = λ db.
        o.transitive db (m db).1 (resume k (m db).0 (m db).1).1 (em.at db)
          (Ensures-resume k ek (m db).0 (m db).1);
  }

pub ruleset effect_rules = (Ensures-pure, Ensures-fails, Ensures-dies, Ensures-reads, Ensures-bind)

-- The table of the links is the same.
abbrev pub SameLinks : Db → Db → Type 0
SameLinks db db' = db'.links ≡ db.links

pub SameLinks-preorder : IsPreorder SameLinks
SameLinks-preorder = record { reflexive = λ db. refl; transitive = λ a b c h h'. h' ∙ h }

resume-ok {ℓ} :
    {A B : Type ℓ} (k : A → Exec B) (r : Exit A) (db : Db) (b : B)
    → (resume k r db).0 ≡ ok b
    → (a : A) × (resume k r db ≡ k a db)
resume-ok k (ok a) db b e = (a, refl)
resume-ok k (fail x) db b e = cc
resume-ok k die db b e = cc

-- A sequence that succeeds has gone on from the database that its first part left.
pub bind-ok {ℓ} :
    {A B : Type ℓ} (m : Exec A) (k : A → Exec B) (db : Db) (b : B)
    → ((m >>= k) db).0 ≡ ok b
    → (a : A) × ((m >>= k) db ≡ k a (m db).1)
unfolding ◌>>=◌
bind-ok m k db b e = resume-ok k (m db).0 (m db).1 b e

resume-pure {ℓ} : {A B : Type ℓ} (b : B) (r : Exit A) (db : Db) → (resume (λ _. pure b) r db).1 ≡ db
unfolding pure
resume-pure b (ok a) db = refl
resume-pure b (fail x) db = refl
resume-pure b die db = refl

-- Replacing a result leaves the database as it is.
pub bind-pure {ℓ} :
    {A B : Type ℓ} (m : Exec A) (b : B) (db : Db) → ((m >>= λ _. pure b) db).1 ≡ (m db).1
unfolding ◌>>=◌
bind-pure m b db = resume-pure b (m db).0 (m db).1
