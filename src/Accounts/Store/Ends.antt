-- ===== src/Accounts/Store/Ends.antt =====
-- On the methods of src/database.rs, by what holds at their end: of the result, or of an error.
use mathlib.Core.Path.{subst}
use nat_server.Common.{
  ℕ, ◌≡◌, refl, Bool, true, false, if◌then◌else◌, Option, none, some, arith, suc,
}
use nat_server.State.{Result, ok, err, db_failed}
use nat_server.Accounts.Store.{Accounts, Sql}
use nat_server.Accounts.Store.Monad.{
  Db, end, tried, caught, onward, ◌>>=◌, query, count_or_zero, execute, written, ticked,
}

-- `Q` of a result and the database with it, `P` of the database with an error.
abbrev pub Ends :
    {A : Type 0} → (A → Accounts → Type 0) → (Accounts → Type 0) → Result A × Accounts → Type 0
Ends Q P (ok a, t) = Q a t
Ends Q P (err x, t) = P t

bound-Ends :
    {A B : Type 0} (R : A → Accounts → Type 0) (Q : B → Accounts → Type 0) (P : Accounts → Type 0)
    (f : A → Db B) (o : Result A × Accounts)
    → Ends R P o
    → ((a : A) (t : Accounts) → R a t → Ends Q P (f a t))
    → Ends Q P (onward f o)
bound-Ends R Q P f (ok a, t) h k = k a t h
bound-Ends R Q P f (err x, t) h k = h

pub bind-Ends :
    {A B : Type 0} (R : A → Accounts → Type 0) (Q : B → Accounts → Type 0) (P : Accounts → Type 0)
    (m : Db A) (f : A → Db B) (s : Accounts)
    → Ends R P (m s)
    → ((a : A) (t : Accounts) → R a t → Ends Q P (f a t))
    → Ends Q P ((m >>= f) s)
bind-Ends R Q P m f s h k = bound-Ends R Q P f (m s) h k

caught-Ends :
    {A : Type 0} (Q : Option A → Accounts → Type 0) (P : Accounts → Type 0)
    (o : Result A × Accounts)
    → Ends (λ a t. Q (some a) t) (λ t. Q none t) o
    → Ends Q P (caught o)
caught-Ends Q P (ok a, t) h = h
caught-Ends Q P (err x, t) h = h

pub tried-Ends :
    {A : Type 0} (Q : Option A → Accounts → Type 0) (P : Accounts → Type 0) (m : Db A)
    (s : Accounts)
    → Ends (λ a t. Q (some a) t) (λ t. Q none t) (m s)
    → Ends Q P (tried m s)
tried-Ends Q P m s h = caught-Ends Q P (m s) h

run-Ends :
    {A : Type 0} (Q : A → Accounts → Type 0) (P : Accounts → Type 0)
    (f : Accounts → Option (A × Accounts)) (s : Accounts) (c r : Bool) (o : Option (A × Accounts))
    → P (ticked s)
    → ((a : A) (t : Accounts) → f s ≡ some (a, t) → Q a (record t { calls = suc s.calls }))
    → f s ≡ o
    → Ends Q P (
        if c
        then (if r then written o s else (err db_failed, ticked s))
        else (err db_failed, ticked s))
run-Ends Q P f s true true none h k q = h
run-Ends Q P f s true true (some (a, t)) h k q = k a t q
run-Ends Q P f s true false o h k q = h
run-Ends Q P f s false r o h k q = h

pub execute-Ends :
    (e : Sql) {A : Type 0} (Q : A → Accounts → Type 0) (P : Accounts → Type 0)
    (f : Accounts → Option (A × Accounts)) (s : Accounts)
    → P (ticked s)
    → ((a : A) (t : Accounts) → f s ≡ some (a, t) → Q a (record t { calls = suc s.calls }))
    → Ends Q P (execute e f s)
unfolding execute
execute-Ends e Q P f s h k = run-Ends Q P f s (e.connects s.calls) (e.runs s.calls) (f s) h k refl

pub query-Ends :
    (e : Sql) {A : Type 0} (Q : A → Accounts → Type 0) (P : Accounts → Type 0) (f : Accounts → A)
    (s : Accounts)
    → P (ticked s)
    → Q (f s) (ticked s)
    → Ends Q P (query e f s)
unfolding query
query-Ends e Q P f s h k = ground (arith, h, k)

pub count_or_zero-Ends :
    (e : Sql) (Q : ℕ → Accounts → Type 0) (P : Accounts → Type 0) (f : Accounts → ℕ) (s : Accounts)
    → P (ticked s)
    → Q 0 (ticked s)
    → Q (f s) (ticked s)
    → Ends Q P (count_or_zero e f s)
unfolding count_or_zero
count_or_zero-Ends e Q P f s h z k = ground (arith, h, z, k)

ended :
    {A : Type 0} (P : Accounts → Type 0) (o : Result A × Accounts) → Ends (λ _ t. P t) P o → P o.1
ended P (ok a, t) q = q
ended P (err x, t) q = q

-- The database at the end, whatever the result.
pub Ends-end :
    {A : Type 0} (P : Accounts → Type 0) (m : Db A) (s : Accounts)
    → Ends (λ _ t. P t) P (m s)
    → P (end m s)
Ends-end P m s h = ended P (m s) h

-- What is known of a result that was answered.
pub Ends-answer :
    {A : Type 0} (Q : A → Accounts → Type 0) (P : Accounts → Type 0) (o : Result A × Accounts)
    (a : A)
    → Ends Q P o
    → o.0 ≡ ok a
    → Q a o.1
Ends-answer Q P (ok b, t) a h q = let same : b ≡ a = cc in subst (λ x. Q x t) same h
Ends-answer Q P (err x, t) a h q = absurd cc
