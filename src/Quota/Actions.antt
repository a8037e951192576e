-- ===== src/Quota/Actions.antt =====
-- Actions on the tables of internal/quota/quota.go: statements, and transactions of them.
use governator.Prelude.{String, Option, none, some}
use governator.Quota.{Db, Error, database}

pub data Result (A : Type 0) : Type 0 where
  ok : A → Result A
  err : Error → Result A

abbrev pub M : Type 0 → Type 0
M A = Db → Db × Result A

abbrev pub pure : {A : Type 0} → A → M A
pure a d = (d, ok a)

abbrev pub fail : {A : Type 0} → Error → M A
fail e d = (d, err e)

abbrev pub continue : {A B : Type 0} → Db × Result A → (A → M B) → Db × Result B
continue (d, ok a) f = f a d
continue (d, err e) f = (d, err e)

infixl 5 ◌>>=◌ ◌>>◌
abbrev pub ◌>>=◌ : {A B : Type 0} → M A → (A → M B) → M B
◌>>=◌ m f d = continue (m d) f

abbrev pub ◌>>◌ : {B : Type 0} → M (Unit {0}) → M B → M B
m >> k = m >>= λ _. k

-- A statement that writes, with what the database answers to it: `none`, or an error.
abbrev pub exec : Option String → (Db → Db) → M (Unit {0})
exec none write d = (write d, ok tt)
exec (some e) write d = (d, err (database e))

-- A statement that reads.
abbrev pub query : {A : Type 0} → Option String → (Db → A) → M A
query none read d = (d, ok (read d))
query (some e) read d = (d, err (database e))

abbrev pub rolled_back : {A : Type 0} → Db → Db × Result A → Db × Result A
rolled_back before (d, ok a) = (d, ok a)
rolled_back before (d, err e) = (before, err e)

-- `Begin`, the statements, and `Rollback` unless they end with no error.
abbrev pub transaction : {A : Type 0} → Option String → M A → M A
transaction none body d = rolled_back d (body d)
transaction (some e) body d = (d, err (database e))
