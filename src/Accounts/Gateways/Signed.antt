-- ===== src/Accounts/Gateways/Signed.antt =====
-- On the signatures of the notices in src/payment.rs.
use nat_server.Common.{
  ◌≡◌, refl, false, Option, none, some, list_has_eq, is_empty, Bool-cases, inl, inr, ◌⊎◌,
}
use nat_server.Common.Map.{Map}
use nat_server.Common.Text.{Text, text}
use nat_server.Accounts.Store.{Accounts, Sql}
use nat_server.Accounts.Store.Monad.{end, tried, query, ticked}
use nat_server.Accounts.Store.Ends.{Ends, bind-Ends, tried-Ends, query-Ends, Ends-end}
use nat_server.Accounts.Settings.{get_all_settings}
use nat_server.Accounts.Gateways.{
  param, alipay_build_sign_str, alipay_checked, alipay_notify, stripe_verify_webhook,
  stripe_checked, stripe_webhook,
}

-- Orders and subscriptions are as before.
abbrev pub Untouched : Accounts → Accounts → Type 0
Untouched s t = (t.orders ≡ s.orders) × (t.user_subscriptions ≡ s.user_subscriptions)

module _ (e : Sql) (s : Accounts) where
  -- Settings were read, or not.
  abbrev Asked : Option (Map Text Text) → Accounts → Type 0
  Asked o t = (t ≡ ticked s) × ((o ≡ none) ⊎ (o ≡ some s.system_settings))

  Asked-Ends : Ends Asked (Untouched s) (tried (get_all_settings e) s)
  unfolding get_all_settings
  Asked-Ends = tried-Ends Asked (Untouched s) (query e (λ t. t.system_settings)) s (
      query-Ends e (λ m t. Asked (some m) t) (λ t. Asked none t) (λ t. t.system_settings) s
        (refl, inl refl) (refl, inr refl))

alipay-Untouched :
    (e : Sql) (params : Map Text Text) (s : Accounts)
    → e.rsa2_verify
        (param e s.system_settings (text "payment.alipay_public_key"))
        (alipay_build_sign_str params)
        (param e params (text "sign"))
      ≡ false
    → Untouched s (end (alipay_notify e params) s)
unfolding alipay_notify alipay_checked
alipay-Untouched e params s h = Ends-end (Untouched s) (alipay_notify e params) s (
    bind-Ends (Asked e s) (λ _ t. Untouched s t) (Untouched s) (tried (get_all_settings e))
      (alipay_checked e params) s (Asked-Ends e s) refused)
  where
    refused :
        (o : Option (Map Text Text)) (t : Accounts)
        → Asked e s o t
        → Ends (λ _ t. Untouched s t) (Untouched s) (alipay_checked e params o t)
    refused o t (q, inl x) = rw (x, q) (refl, refl)
    refused o t (q, inr x) =
        let key = param e s.system_settings (text "payment.alipay_public_key") in
        elim (Bool-cases (is_empty key)) [
          | inl y ↦ rw (x, q, y) (refl, refl)
          | inr n ↦ rw (x, q, n, h) (refl, refl)
        ]

stripe-Untouched :
    (e : Sql) (sig_header body : Text) (s : Accounts)
    → stripe_verify_webhook e
        (param e s.system_settings (text "payment.stripe_webhook_secret"))
        body
        sig_header
      ≡ false
    → Untouched s (end (stripe_webhook e sig_header body) s)
unfolding stripe_webhook stripe_checked
stripe-Untouched e sig_header body s h =
    Ends-end (Untouched s) (stripe_webhook e sig_header body) s (
      bind-Ends (Asked e s) (λ _ t. Untouched s t) (Untouched s) (tried (get_all_settings e))
        (stripe_checked e sig_header body) s (Asked-Ends e s) refused)
  where
    refused :
        (o : Option (Map Text Text)) (t : Accounts)
        → Asked e s o t
        → Ends (λ _ t. Untouched s t) (Untouched s) (stripe_checked e sig_header body o t)
    refused o t (q, inl x) = rw (x, q) (refl, refl)
    refused o t (q, inr x) =
        let secret = param e s.system_settings (text "payment.stripe_webhook_secret") in
        elim (Bool-cases (is_empty secret)) [
          | inl y ↦ rw (x, q, y) (refl, refl)
          | inr n ↦ rw (x, q, n, h) (refl, refl)
        ]

-- Notices whose signatures are not right, one of Alipay and one of Stripe, each change no order and
-- no subscription.
pub notices-Untouched :
    (e : Sql) (params : Map Text Text) (sig_header body : Text) (s : Accounts)
    → e.rsa2_verify
        (param e s.system_settings (text "payment.alipay_public_key"))
        (alipay_build_sign_str params)
        (param e params (text "sign"))
      ≡ false
    → stripe_verify_webhook e
        (param e s.system_settings (text "payment.stripe_webhook_secret"))
        body
        sig_header
      ≡ false
    → Untouched s (end (alipay_notify e params) s)
      × Untouched s (end (stripe_webhook e sig_header body) s)
notices-Untouched e params sig_header body s h k =
    (alipay-Untouched e params s h, stripe-Untouched e sig_header body s k)
