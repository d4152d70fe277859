-- ===== src/Accounts/Tokens/Lifetime.antt =====
-- On the lifetime of a reset token in src/database.rs, as its expiry is compared.
use nat_server.Common.{
  ℕ, ◌+◌, ◌≡◌, refl, true, some, [], ◌∷◌, ◌++◌, arith, list_has_eq, list_eq_iff,
}
use nat_server.Common.Int.{ℤ}
use nat_server.Common.Text.{Text}
use nat_server.State.{ok}
use nat_server.Accounts.Store.{Accounts, Sql, text_after}
use nat_server.Accounts.Store.Monad.{end, answer}
use nat_server.Accounts.Store.Ends.{execute-Ends, Ends-answer}
use nat_server.Accounts.Tokens.{
  token_user, insert_token, token_lifetime, create_password_reset_token,
}

-- Of two texts that agree up to a `T` and a space, the one with the `T` is the later.
same_day : (day x y : Text) → text_after (day ++ (b'T' ∷ x)) (day ++ (b' ' ∷ y)) ≡ true
unfolding text_after
same_day [] x y = refl
same_day (c ∷ day) x y = ground (arith, same_day day x y)

inserted_user :
    (user_id : ℤ) (token expires_at now : Text) (s : Accounts)
    → text_after expires_at now ≡ true
    → (a : Text) (t : Accounts) → insert_token user_id token expires_at s ≡ some (a, t)
    → token_user a now t.password_reset_tokens ≡ some user_id
unfolding insert_token token_user
inserted_user user_id token expires_at now s h a t q = ground (arith, list_eq_iff token token)

-- A token that was created is still valid at any later time that the clock shows on the day on which
-- it expires, however much later than its hour. The two hypotheses are how the driver writes a time
-- (the day, `T`, the time of day) and how `datetime('now')` does (the day, a space, the time of day).
pub token_outlives :
    (e : Sql) (user_id : ℤ) (token day x y : Text) (s : Accounts) (later : ℕ)
    → e.rfc3339 (s.now + token_lifetime) ≡ day ++ (b'T' ∷ x)
    → e.datetime later ≡ day ++ (b' ' ∷ y)
    → answer (create_password_reset_token e user_id) s ≡ ok token
    → token_user token
        (e.datetime later)
        (end (create_password_reset_token e user_id) s).password_reset_tokens
      ≡ some user_id
unfolding create_password_reset_token
token_outlives e user_id token day x y s later hx hy q =
    Ends-answer Valid (λ _. Unit) (create_password_reset_token e user_id s) token
      (execute-Ends e Valid (λ _. Unit)
        (insert_token user_id (e.new_uuid s.calls) (e.rfc3339 (s.now + token_lifetime))) s tt
        (inserted_user user_id (e.new_uuid s.calls) (e.rfc3339 (s.now + token_lifetime))
          (e.datetime later) s (rw (hx, hy) (same_day day x y))))
      q
  where
    Valid : Text → Accounts → Type 0
    Valid a t = token_user a (e.datetime later) t.password_reset_tokens ≡ some user_id
