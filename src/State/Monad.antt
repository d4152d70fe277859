-- ===== src/State/Monad.antt =====
-- The monad of the handlers: the server's state, and an error that ends a step.
use nat_server.Common.{Bool, Option, none, some, if◌then◌else◌}
use nat_server.State.Types.{Server}

pub data Error : Type 0 where
  send_failed encode_failed db_failed rejected : Error

pub data Result {ℓ} (A : Type ℓ) : Type ℓ where
  ok : A → Result A
  err : Error → Result A

-- A handler's step: what was changed stays changed when it fails.
abbrev pub M : Type 0 → Type 0
M A = Server → Result A × Server

module _ {A : Type 0} where
  abbrev pub pure : A → M A
  pure a s = (ok a, s)

  abbrev pub fail : Error → M A
  fail e s = (err e, s)

  abbrev pub gets : (Server → A) → M A
  gets f s = (ok (f s), s)

  -- `.ok()` and `if let Ok`: the error becomes a value.
  abbrev pub attempt : M A → M (Option A)
  attempt m s = let (r, s') = m s in elim r [ ok a ↦ (ok (some a), s') | err e ↦ (ok none, s') ]

infixl 5 ◌>>=◌ ◌>>◌
abbrev pub ◌>>=◌ : {A B : Type 0} → M A → (A → M B) → M B
◌>>=◌ m f s = let (r, s') = m s in elim r [ ok a ↦ f a s' | err e ↦ (err e, s') ]

abbrev pub ◌>>◌ : {A B : Type 0} → M A → M B → M B
m >> k = m >>= λ _. k

abbrev pub modify : (Server → Server) → M (Unit {0})
modify f s = (ok tt, f s)

-- `allow_err!`: the error is only logged.
abbrev pub allow_err : M (Unit {0}) → M (Unit {0})
allow_err m s = (ok tt, (m s).1)

abbrev pub when : Bool → M (Unit {0}) → M (Unit {0})
when b m = if b then m else pure tt

module _ {A : Type 0} where
  -- The state after a step, and its result.
  abbrev pub after : M A → Server → Server
  after m s = (m s).1

  abbrev pub result : M A → Server → Result A
  result m s = (m s).0
