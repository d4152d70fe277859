-- ===== src/Accounts/Store/Works.antt =====
-- On the statements of src/database.rs where the database answers.
use nat_server.Common.{ℕ, ◌+◌, ◌≤◌, ◌≡◌, true, Bool, Option, some, List, [], ◌∷◌, arith, ap}
use nat_server.State.{Result, ok, err}
use nat_server.Accounts.Store.{Accounts, Sql, count, update_where, delete_where}
use nat_server.Accounts.Store.Monad.{
  Db, end, tried, caught, onward, written, ◌>>=◌, query, count_or_zero, execute, ticked,
}

-- Every statement finds a connection and is run.
abbrev pub Works : Sql → Type 0
Works e = (n : ℕ) → (e.connects n ≡ true) × (e.runs n ≡ true)

-- A method goes on from what its first step ended in.
pub bind_lem :
    {A B : Type 0} (m : Db A) (f : A → Db B) (s t : Accounts) (a : A)
    → m s ≡ (ok a, t)
    → (m >>= f) s ≡ f a t
bind_lem m f s t a h = ap (onward f) h

pub tried_lem :
    {A : Type 0} (m : Db A) (s t : Accounts) (a : A)
    → m s ≡ (ok a, t)
    → tried m s ≡ (ok (some a), t)
tried_lem m s t a h = ap caught h

module _ (e : Sql) (w : Works e) where
  pub query_lem :
      {A : Type 0} (f : Accounts → A) (s : Accounts) → query e f s ≡ (ok (f s), ticked s)
  unfolding query
  query_lem f s = ground (arith, w s.calls)

  pub query_then_lem :
      {A B : Type 0} (f : Accounts → A) (k : A → Db B) (s : Accounts)
      → (query e f >>= k) s ≡ k (f s) (ticked s)
  query_then_lem f k s = bind_lem (query e f) k s (ticked s) (f s) (query_lem f s)

  pub tried_query_then_lem :
      {A B : Type 0} (f : Accounts → A) (k : Option A → Db B) (s : Accounts)
      → (tried (query e f) >>= k) s ≡ k (some (f s)) (ticked s)
  tried_query_then_lem f k s =
      bind_lem (tried (query e f)) k s (ticked s) (some (f s))
        (tried_lem (query e f) s (ticked s) (f s) (query_lem f s))

  pub count_or_zero_lem :
      (f : Accounts → ℕ) (s : Accounts) → count_or_zero e f s ≡ (ok (f s), ticked s)
  unfolding count_or_zero
  count_or_zero_lem f s = ground (arith, w s.calls)

  pub count_then_lem :
      {B : Type 0} (f : Accounts → ℕ) (k : ℕ → Db B) (s : Accounts)
      → (count_or_zero e f >>= k) s ≡ k (f s) (ticked s)
  count_then_lem f k s = bind_lem (count_or_zero e f) k s (ticked s) (f s) (count_or_zero_lem f s)

  pub execute_lem :
      {A : Type 0} (f : Accounts → Option (A × Accounts)) (s : Accounts)
      → execute e f s ≡ written (f s) s
  unfolding execute
  execute_lem f s = ground (arith, w s.calls)

-- At most as many rows are lost as are deleted.
pub count-delete_where {ℓ} :
    {A : Type ℓ} (p q : A → Bool) (xs : List A)
    → count p xs ≤ count p (delete_where q xs) + count q xs
unfolding count
count-delete_where p q [] = omega arith
count-delete_where p q (x ∷ xs) = ground (arith, count-delete_where p q xs)

pub count-update_where {ℓ} :
    {A : Type ℓ} (p q : A → Bool) (f : A → A) (xs : List A)
    → count p xs ≤ count p (update_where q f xs) + count q xs
unfolding count update_where
count-update_where p q f [] = omega arith
count-update_where p q f (x ∷ xs) = ground (arith, count-update_where p q f xs)

-- The method keeps the property of the database.
module _ (P : Accounts → Type 0) where
  abbrev pub Keeps : {A : Type 0} → Db A → Type 0
  Keeps m = (s : Accounts) → P s → P (end m s)

  bound-Keeps :
      {A B : Type 0} (f : A → Db B) (o : Result A × Accounts)
      → ((a : A) → Keeps (f a))
      → P o.1
      → P (onward f o).1
  bound-Keeps f (ok a, t) k h = k a t h
  bound-Keeps f (err x, t) k h = h

  pub bind-Keeps :
      {A B : Type 0} (m : Db A) (f : A → Db B) → Keeps m → ((a : A) → Keeps (f a)) → Keeps (m >>= f)
  bind-Keeps m f h k s p = bound-Keeps f (m s) k (h s p)

  caught-Keeps : {A : Type 0} (o : Result A × Accounts) → P o.1 → P (caught o).1
  caught-Keeps (ok a, t) q = q
  caught-Keeps (err x, t) q = q

  pub tried-Keeps : {A : Type 0} (m : Db A) → Keeps m → Keeps (tried m)
  tried-Keeps m h s p = caught-Keeps (m s) (h s p)

  pub query-Keeps :
      (e : Sql) {A : Type 0} (f : Accounts → A)
      → ((s : Accounts) → P s → P (ticked s))
      → Keeps (query e f)
  unfolding query
  query-Keeps e f k s p = ground (arith, k s p)

-- What holds after a method whose first step keeps `P`.
module _ (P Q : Accounts → Type 0) (weaken : (t : Accounts) → P t → Q t) where
  bound-Leads :
      {A B : Type 0} (f : A → Db B) (o : Result A × Accounts)
      → ((a : A) (t : Accounts) → P t → Q (end (f a) t))
      → P o.1
      → Q (onward f o).1
  bound-Leads f (ok a, t) k h = k a t h
  bound-Leads f (err x, t) k h = weaken t h

  pub bind-Leads :
      {A B : Type 0} (m : Db A) (f : A → Db B)
      → Keeps P m
      → ((a : A) (t : Accounts) → P t → Q (end (f a) t))
      → (s : Accounts) → P s
      → Q (end (m >>= f) s)
  bind-Leads m f h k s p = bound-Leads f (m s) k (h s p)
