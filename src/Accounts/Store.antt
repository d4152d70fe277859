-- ===== src/Accounts/Store.antt =====
-- The tables of accounts in src/database.rs, src/subscription.rs and src/payment.rs, and the monad of
-- the methods on them. The SQL engine is read as: a table is the list of its rows, ids are drawn from
-- a counter of the table, and foreign keys are on (as the driver sets them).
pub mod Monad
pub mod Works
pub mod Ends
use nat_server.Common.{
  ℕ, suc, ◌+◌, Bool, true, false, ◌&&◌, not, Option, List, [], ◌∷◌, if◌then◌else◌, select, ltb,
}
use nat_server.Common.Int.{ℤ, pos}
use nat_server.Common.Map.{Map}
use nat_server.Common.Text.{Text}

pub record User : Type 0 where
  pub id : ℤ
  pub username : Text
  pub email : Text
  pub password_hash : Text
  pub created_at : ℕ
  pub updated_at : ℕ
  pub is_active : Bool
  pub role : Text

pub record UserDevice : Type 0 where
  pub id : ℤ
  pub user_id : ℤ
  pub device_id : Text
  pub device_name : Option Text
  pub created_at : ℕ
  pub is_active : Bool

-- A plan, less its price and description.
pub record SubscriptionPlan : Type 0 where
  pub id : ℤ
  pub name : Text
  pub display_name : Text
  pub device_limit : ℤ
  pub speed_limit_kbps : ℤ

-- A row of `user_subscriptions`. `expires_at` is the text that the driver wrote.
pub record SubscriptionRow : Type 0 where
  pub id : ℤ
  pub user_id : ℤ
  pub plan_id : ℤ
  pub started_at : ℕ
  pub expires_at : Option Text
  pub is_active : Bool
  pub notes : Option Text
  pub created_at : ℕ

pub record ResetToken : Type 0 where
  pub id : ℤ
  pub user_id : ℤ
  pub token : Text
  pub expires_at : Text
  pub is_used : Bool

pub record Order : Type 0 where
  pub id : ℤ
  pub order_no : Text
  pub user_id : ℤ
  pub plan_id : ℤ
  pub amount : Text
  pub currency : Text
  pub payment_method : Text
  pub status : Text
  pub gateway_order_id : Option Text
  pub gateway_qr : Option Text
  pub stripe_checkout_url : Option Text
  pub paid_at : Option ℕ

-- The last ids given out (`autoincrement`), per table.
pub record LastIds : Type 0 where
  pub users : ℕ
  pub user_devices : ℕ
  pub user_subscriptions : ℕ
  pub password_reset_tokens : ℕ
  pub orders : ℕ

-- The database, the clock in seconds, and the number of the next statement.
pub record Accounts : Type 0 where
  pub users : List User
  pub user_devices : List UserDevice
  pub subscription_plans : List SubscriptionPlan
  pub user_subscriptions : List SubscriptionRow
  pub password_reset_tokens : List ResetToken
  pub orders : List Order
  pub system_settings : Map Text Text
  pub last_ids : LastIds
  pub now : ℕ
  pub calls : ℕ

-- What a handler reads of the JSON of a Stripe event; a text that is missing is empty.
pub record StripeEvent : Type 0 where
  pub kind : Text
  pub order_no : Text
  pub payment_intent : Text

-- What a login's token says (JWT).
pub record LoginClaims : Type 0 where
  pub sub : ℤ
  pub username : Text
  pub exp : ℕ
  pub iat : ℕ
  pub udid : Option ℤ
  pub role : Text

-- The world around the methods; what may fail is answered by the number of the statement.
pub record Sql : Type 0 where
  -- the connection pool, the SQL engine, and the texts of times: as the driver writes them, and
  -- as `datetime('now')` does
  pub connects : ℕ → Bool
  pub runs : ℕ → Bool
  pub rfc3339 : ℕ → Text
  pub datetime : ℕ → Text
  -- bcrypt, uuid and JWT
  pub hash : ℕ → Text → Option Text
  pub verify : Text → Text → Bool
  pub new_uuid : ℕ → Text
  pub encode_claims : LoginClaims → Option Text
  -- signatures and JSON of the payment gateways
  pub rsa2_verify : Text → Text → Text → Bool
  pub hmac_hex : Text → Text → Text
  pub parse_event : Text → Option StripeEvent

-- `count(*)` of the rows that pass.
unfoldable pub count {ℓ} : {A : Type ℓ} → (A → Bool) → List A → ℕ
count p [] = 0
count p (x ∷ xs) = (if p x then 1 else 0) + count p xs

-- `update … where`.
unfoldable pub update_where {ℓ} : {A : Type ℓ} → (A → Bool) → (A → A) → List A → List A
update_where p f [] = []
update_where p f (x ∷ xs) = (if p x then f x else x) ∷ update_where p f xs

-- `delete … where`.
abbrev pub delete_where {ℓ} : {A : Type ℓ} → (A → Bool) → List A → List A
delete_where p xs = select (λ x. not (p x)) xs

-- `>` on texts: the first character that differs decides, and then the length.
unfoldable pub text_after : Text → Text → Bool
text_after [] b = false
text_after (x ∷ a) [] = true
text_after (x ∷ a) (y ∷ b) =
    let rest = text_after a b in if ltb y x then true else if ltb x y then false else rest
