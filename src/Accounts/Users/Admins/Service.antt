-- ===== src/Accounts/Users/Admins/Service.antt =====
-- On any requests to src/api.rs that change or delete users.
use nat_server.Common.{
  ℕ, suc, ◌≡◌, refl, true, false, Bool, Option, none, some, List, [], ◌∷◌, arith, select, unwrap_or,
  Bool-cases, inl, inr, ◌==◌, if◌then◌else◌,
}
use mathlib.Core.Option
use nat_server.Common.Int.{ℤ, int_has_eq}
use nat_server.Common.Text.{Text}
use nat_server.Database.{first}
use nat_server.Accounts.Store.{Accounts, Sql, User, count, update_where}
use nat_server.Accounts.Store.Monad.{Db, end, query, execute, tried, done}
use nat_server.Accounts.Store.Works.{Works, Keeps, bind-Keeps, tried-Keeps}
use nat_server.Accounts.Store.Ends.{execute-Ends, Ends-end}
use nat_server.Accounts.Users.{
  is_user, is_admin, get_user_by_id, Reply, flat, done_or_failure, handle_delete_user,
  handle_update_user_role, db_user_is_admin,
}
use nat_server.Accounts.Users.Admins.Guard.{
  AreManned, looks-AreManned, db_user_is_admin-AreManned, handle_delete_user-AreManned,
  handle_update_user_role-AreManned,
}
use nat_server.Accounts.Signup.{
  update_rows, update_user, update_if, is_no_address, shown, handle_update_user,
}

abbrev with_names : Option Text → Option Text → ℕ → User → User
with_names username email now u = record u {
  username = unwrap_or username u.username;
  email = unwrap_or email u.email;
  updated_at = now;
}

-- Names do not matter to ids and roles.
renamed :
    (p : User → Bool) (id : ℤ) (username email : Option Text) (now : ℕ) (us : List User)
    → ((u : User) → p (with_names username email now u) ≡ p u)
    → count p (update_where (is_user id) (with_names username email now) us) ≡ count p us
unfolding count update_where
renamed p id username email now [] h = refl
renamed p id username email now (u ∷ us) h =
    ground (arith, h u, renamed p id username email now us h)

module _ (e : Sql) (w : Works e) where
  update_rows-AreManned :
      (id : ℤ) (username email : Option Text)
      → Keeps AreManned (execute e (update_rows id username email))
  unfolding update_rows
  update_rows-AreManned id username email s m =
      Ends-end AreManned (execute e (update_rows id username email)) s
        (execute-Ends e (λ _ t. AreManned t) AreManned (update_rows id username email) s m written)
    where
      written :
          (a : Unit {0}) (t : Accounts)
          → update_rows id username email s ≡ some (a, t)
          → AreManned (record t { calls = suc s.calls })
      written a t q =
          let rows : t.users ≡ update_where (is_user id) (with_names username email s.now) s.users =
            ground arith in
          rw rows (record {
            keyed = λ j.
                rw (renamed (is_user j) id username email s.now s.users (λ u. refl)) (m.keyed j);
            manned = rw (renamed is_admin id username email s.now s.users (λ u. refl)) m.manned;
          })

  shown-AreManned : (o : Option ℤ) → Keeps AreManned (shown e o)
  unfolding shown get_user_by_id
  shown-AreManned none t m = m
  shown-AreManned (some id) t m =
      bind-Keeps AreManned (tried (query e found)) (λ f. done (done_or_failure e (flat f)))
        (looks-AreManned e w found) (λ a s p. p) t m
    where
      found : Accounts → Option User
      found t = first (select (is_user id) t.users)

  update_if-AreManned :
      (id : ℤ) (username email : Option Text) (b : Bool)
      → Keeps AreManned (update_if e id username email b)
  unfolding update_if update_user
  update_if-AreManned id username email false t m = m
  update_if-AreManned id username email true t m = elim (Bool-cases (is_no_address e email)) [
    | inl y ↦ rw y m
    | inr n ↦ rw n (
        bind-Keeps AreManned (tried (execute e (update_rows id username email)))
          (λ o. shown e (Option.map (λ _. id) o))
          (tried-Keeps AreManned (execute e (update_rows id username email))
            (update_rows-AreManned id username email))
          (λ o. shown-AreManned (Option.map (λ _. id) o)) t m)
  ]

  handle_update_user-AreManned :
      (caller id : ℤ) (username email : Option Text)
      → Keeps AreManned (handle_update_user e caller id username email)
  unfolding handle_update_user
  handle_update_user-AreManned caller id username email =
      bind-Keeps AreManned (if caller == id then done true else db_user_is_admin e caller)
        (update_if e id username email) (allowed (caller == id))
        (update_if-AreManned id username email)
    where
      allowed : (b : Bool) → Keeps AreManned (if b then done true else db_user_is_admin e caller)
      allowed true t m = m
      allowed false t m = db_user_is_admin-AreManned e w caller t m

-- A request of a caller, for a user.
pub data Request : Type 0 where
  delete_request : ℤ → ℤ → Request
  role_request : ℤ → ℤ → Text → Request
  update_request : ℤ → ℤ → Option Text → Option Text → Request

abbrev pub serve : Sql → Request → Db Reply
serve e (delete_request caller id) = handle_delete_user e caller id
serve e (role_request caller id role) = handle_update_user_role e caller id role
serve e (update_request caller id username email) = handle_update_user e caller id username email

abbrev pub serve_all : Sql → List Request → Accounts → Accounts
serve_all e [] s = s
serve_all e (r ∷ rs) s = serve_all e rs (end (serve e r) s)

serve-AreManned : (e : Sql) → Works e → (r : Request) → Keeps AreManned (serve e r)
serve-AreManned e w (delete_request caller id) = handle_delete_user-AreManned e w caller id
serve-AreManned e w (role_request caller id role) =
    handle_update_user_role-AreManned e w caller id role
serve-AreManned e w (update_request caller id username email) =
    handle_update_user-AreManned e w caller id username email

-- While the database answers, an administrator is left, and ids stay single, after any sequence of
-- requests to delete users, to change roles and to change names and addresses, whoever sends them, if
-- that held before.
pub serve_all-AreManned :
    (e : Sql) (rs : List Request) (s : Accounts)
    → Works e
    → AreManned s
    → AreManned (serve_all e rs s)
serve_all-AreManned e [] s w m = m
serve_all-AreManned e (r ∷ rs) s w m =
    serve_all-AreManned e rs (end (serve e r) s) w (serve-AreManned e w r s m)
