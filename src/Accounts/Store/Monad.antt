-- ===== src/Accounts/Store/Monad.antt =====
-- The monad of the methods of `Database`: each statement goes through the pool and may fail.
use nat_server.Common.{ℕ, suc, Option, none, some, if◌then◌else◌}
use nat_server.State.{Result, ok, err, Error, db_failed}
use nat_server.Accounts.Store.{Accounts, Sql}

-- What was written before an error stays written.
abbrev pub Db : Type 0 → Type 0
Db A = Accounts → Result A × Accounts

module _ {A : Type 0} where
  abbrev pub done : A → Db A
  done a s = (ok a, s)

  abbrev pub failed : Error → Db A
  failed e s = (err e, s)

  abbrev pub reads : (Accounts → A) → Db A
  reads f s = (ok (f s), s)

  abbrev pub caught : Result A × Accounts → Result (Option A) × Accounts
  caught (ok a, t) = (ok (some a), t)
  caught (err e, t) = (ok none, t)

  -- `if let Ok` and `match` on a result: the error becomes a value.
  abbrev pub tried : Db A → Db (Option A)
  tried m s = caught (m s)

  -- The database after a method, and its result.
  abbrev pub end : Db A → Accounts → Accounts
  end m s = (m s).1

  abbrev pub answer : Db A → Accounts → Result A
  answer m s = (m s).0

-- `?`: the method goes on from a value, and ends with an error.
abbrev pub onward : {A B : Type 0} → (A → Db B) → Result A × Accounts → Result B × Accounts
onward f (ok a, t) = f a t
onward f (err e, t) = (err e, t)

infixl 5 ◌>>=◌ ◌>>◌
abbrev pub ◌>>=◌ : {A B : Type 0} → Db A → (A → Db B) → Db B
◌>>=◌ m f s = onward f (m s)

abbrev pub ◌>>◌ : {A B : Type 0} → Db A → Db B → Db B
m >> k = m >>= λ _. k

abbrev pub ticked : Accounts → Accounts
ticked s = record s { calls = suc s.calls }

-- What a statement that is run leaves: `none` if it breaks a constraint.
abbrev pub written : {A : Type 0} → Option (A × Accounts) → Accounts → Result A × Accounts
written none s = (err db_failed, ticked s)
written (some (a, t)) s = (ok a, record t { calls = suc s.calls })

module _ (e : Sql) where
  -- A query.
  unfoldable pub query : {A : Type 0} → (Accounts → A) → Db A
  query f s =
      if e.connects s.calls
      then (if e.runs s.calls then (ok (f s), ticked s) else (err db_failed, ticked s))
      else (err db_failed, ticked s)

  -- A count with `unwrap_or(0)`: only the lack of a connection is an error.
  unfoldable pub count_or_zero : (Accounts → ℕ) → Db ℕ
  count_or_zero f s =
      if e.connects s.calls
      then (ok (if e.runs s.calls then f s else 0), ticked s)
      else (err db_failed, ticked s)

  -- A statement that writes.
  unfoldable pub execute : {A : Type 0} → (Accounts → Option (A × Accounts)) → Db A
  execute f s =
      if e.connects s.calls
      then (if e.runs s.calls then written (f s) s else (err db_failed, ticked s))
      else (err db_failed, ticked s)
