-- ===== src/Accounts/Gateways.antt =====
-- The notices of Alipay and Stripe in src/payment.rs.
pub mod Signed
use nat_server.Common.{
  Bool, true, false, ◌&&◌, ◌||◌, not, Option, none, some, List, [], ◌∷◌, ◌++◌, ◌==◌, list_has_eq,
  if◌then◌else◌, is_empty, unwrap_or,
}
use nat_server.Common.Map.{Map, lookup}
use nat_server.Common.Text.{Text, text, trim, split}
use nat_server.Common.Split.{strip_prefix}
use nat_server.Accounts.Store.{Accounts, Sql, StripeEvent, text_after}
use nat_server.Accounts.Store.Monad.{Db, done, tried, ◌>>=◌, ◌>>◌}
use nat_server.Accounts.Orders.{mark_order_paid, activate_paid}
use nat_server.Accounts.Settings.{get_all_settings}

-- A `BTreeMap`: by rising keys, a value of a known key replaced.
unfoldable pub insert_sorted : Text → Text → Map Text Text → Map Text Text
insert_sorted k v [] = (k, v) ∷ []
insert_sorted k v ((j, w) ∷ m) =
    let rest = insert_sorted k v m in
    if j == k then (k, v) ∷ m else if text_after j k then (k, v) ∷ (j, w) ∷ m else (j, w) ∷ rest

abbrev pub is_signed_param : Text → Text → Bool
is_signed_param k v = not (k == text "sign") && (not (k == text "sign_type") && not (is_empty v))

unfoldable pub signed_params : Map Text Text → Map Text Text
signed_params [] = []
signed_params ((k, v) ∷ m) =
    let rest = signed_params m in if is_signed_param k v then insert_sorted k v rest else rest

abbrev pub join_params : Map Text Text → Text
join_params [] = []
join_params ((k, v) ∷ []) = k ++ (text "=" ++ v)
join_params ((k, v) ∷ p ∷ m) = k ++ (text "=" ++ (v ++ (text "&" ++ join_params (p ∷ m))))

-- The signed text of a notice; `alipay_build_sign_str` makes the same of what is sent.
unfoldable pub alipay_build_sign_str : Map Text Text → Text
alipay_build_sign_str params = join_params (signed_params params)

-- The last `t=` and the last `v1=` of a header.
abbrev pub read_part : Text → Text × Text → Text × Text
read_part part (ts, v1) = elim (strip_prefix (text "t=") (trim part)) [
  | some value ↦ (value, v1)
  | none ↦ (ts, unwrap_or (strip_prefix (text "v1=") (trim part)) v1)
]

unfoldable pub read_parts : List Text → Text × Text → Text × Text
read_parts [] acc = acc
read_parts (part ∷ parts) acc = read_parts parts (read_part part acc)

-- What `stripe_webhook` answers.
pub data WebhookStatus : Type 0 where
  status_ok bad_request server_error : WebhookStatus

module _ (e : Sql) where
  unfoldable pub stripe_verify_webhook : Text → Text → Text → Bool
  stripe_verify_webhook secret payload sig_header =
      let (ts, v1) = read_parts (split b',' sig_header) ([], []) in
      not (is_empty ts || is_empty v1) && e.hmac_hex secret (ts ++ (text "." ++ payload)) == v1

  abbrev pub param : Map Text Text → Text → Text
  param params key = unwrap_or (lookup key params) []

  -- The order is paid; Alipay is told whether that was noted.
  unfoldable pub alipay_paid : Map Text Text → Db Bool
  alipay_paid params =
      tried
        (mark_order_paid e (param params (text "out_trade_no")) (param params (text "trade_no")))
      >>= activate_paid e

  unfoldable pub alipay_checked : Map Text Text → Option (Map Text Text) → Db Bool
  alipay_checked params none = done false
  alipay_checked params (some settings) =
      let public_key = param settings (text "payment.alipay_public_key") in
      let trade_status = param params (text "trade_status") in
      if is_empty public_key
        || not
            (e.rsa2_verify public_key (alipay_build_sign_str params) (param params (text "sign")))
      then done false
      else if not (trade_status == text "TRADE_SUCCESS")
          && not (trade_status == text "TRADE_FINISHED")
      then done true
      else alipay_paid params

  -- `alipay_notify`: "success" or "fail".
  unfoldable pub alipay_notify : Map Text Text → Db Bool
  alipay_notify params = tried (get_all_settings e) >>= alipay_checked params

  unfoldable pub stripe_event : Option StripeEvent → Db WebhookStatus
  stripe_event none = done bad_request
  stripe_event (some event) =
      if event.kind == text "checkout.session.completed" && not (is_empty event.order_no)
      then (do
        marked ← tried (mark_order_paid e event.order_no event.payment_intent)
        activate_paid e marked
        done status_ok)
      else done status_ok

  unfoldable pub stripe_checked : Text → Text → Option (Map Text Text) → Db WebhookStatus
  stripe_checked sig_header body none = done server_error
  stripe_checked sig_header body (some settings) =
      let webhook_secret = param settings (text "payment.stripe_webhook_secret") in
      if is_empty webhook_secret
      then done server_error
      else if not (stripe_verify_webhook webhook_secret body sig_header)
      then done bad_request
      else stripe_event (e.parse_event body)

  -- `stripe_webhook`, for the header `stripe-signature` and the body.
  unfoldable pub stripe_webhook : Text → Text → Db WebhookStatus
  stripe_webhook sig_header body = tried (get_all_settings e) >>= stripe_checked sig_header body
