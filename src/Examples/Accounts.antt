-- ===== src/Examples/Accounts.antt =====
-- Examples for the accounts: a shop with an administrator, a user and an order.
use nat_server.Common.{
  ◌≤◌, ◌≡◌, refl, list_eq, list_has_eq, ◌==◌, true, false, none, some, [], ◌∷◌, ◌++◌, arith,
}
use nat_server.Common.Int.{ℤ, pos, int_has_eq}
use nat_server.Common.Map.{Map, lookup}
use nat_server.Common.Text.{Text, text, split, trim}
use nat_server.Common.Split.{strip_prefix}
use nat_server.State.{ok}
use nat_server.Accounts.Store.{User, SubscriptionPlan, SubscriptionRow, Order, Accounts, Sql, count}
use nat_server.Accounts.Store.Monad.{end, answer}
use nat_server.Accounts.Store.Works.{Works}
use nat_server.Accounts.Users.{user_role_admin, user_role_user, success}
use nat_server.Accounts.Users.Admins.Guard.{AreManned}
use nat_server.Accounts.Users.Admins.Service.{
  serve_all, serve_all-AreManned, delete_request, role_request, update_request,
}
use nat_server.Accounts.Subscriptions.Single.{
  IsSingle, change_all, change_all-IsSingle, create_one, update_one, deactivate_one,
}
use nat_server.Accounts.Devices.{CreateDeviceRequest, add_device_to_user}
use nat_server.Accounts.Devices.Binding.{bindings}
use nat_server.Accounts.Devices.Refinement.{
  Agrees, call_devices, set_calls, call_devices-Agrees, removals, DeviceCall, add_call, remove_call,
}
use nat_server.Accounts.Devices.Limit.{
  outcome, expected, may_add, devices_of, outcome-add_device_to_user,
}
use nat_server.Database.{first}
use nat_server.Accounts.Tokens.{web_forgot_password, web_reset_password}
use nat_server.Accounts.Tokens.Served.{login-web_reset_password}
use nat_server.Accounts.Signup.{register, login}
use nat_server.Accounts.Signup.Login.{is_namesake, new_user, response, login-register}
use nat_server.Accounts.Orders.{pending}
use nat_server.Accounts.Orders.Once.{activations, activations_le}
use nat_server.Accounts.Gateways.{alipay_notify, stripe_webhook, stripe_verify_webhook, read_parts}
use nat_server.Accounts.Gateways.Signed.{Untouched, notices-Untouched}
use nat_server.Accounts.IpLists
use nat_server.Accounts.IpLists.{IpEntry, is_ip, add_ip, serialize_ip_file, read_ip_file}
use nat_server.Accounts.IpLists.RoundTrip.{IsClean}
use nat_server.Accounts.IpLists.Loaded.{ip_of_entry, add_ip-load_list}
use nat_server.Common.Text.{is_whitespace, trim_end}
use nat_server.Common.{List, select, map, contains, is_empty, ◌||◌}
use nat_server.Relay.Lists.{load_list}

-- A database that answers, times of one day, and gateways whose signatures are never right.
abbrev the_sql : Sql
the_sql = record {
  connects = λ n. true;
  runs = λ n. true;
  rfc3339 = λ n. text "d" ++ (b'T' ∷ n ∷ []);
  datetime = λ n. text "d" ++ (b' ' ∷ n ∷ []);
  hash = λ n password. some password;
  verify = λ password h. password == h;
  new_uuid = λ n. 117 ∷ n ∷ [];
  encode_claims = λ c. some c.username;
  rsa2_verify = λ key t sign. false;
  hmac_hex = λ key t. text "00";
  parse_event = λ t. none;
}

works : Works the_sql
works n = (refl, refl)

abbrev user_of : ℤ → Text → Text → User
user_of n name role = record {
  id = n;
  username = name;
  email = name;
  password_hash = name;
  created_at = 0;
  updated_at = 0;
  is_active = true;
  role = role;
}

abbrev the_order : Order
the_order = record {
  id = pos 1;
  order_no = text "n1";
  user_id = pos 2;
  plan_id = pos 1;
  amount = text "9";
  currency = text "USD";
  payment_method = text "stripe";
  status = pending;
  gateway_order_id = none;
  gateway_qr = none;
  stripe_checkout_url = none;
  paid_at = none;
}

abbrev the_plan : SubscriptionPlan
the_plan = record {
  id = pos 1;
  name = text "pro";
  display_name = text "Pro";
  device_limit = pos 5;
  speed_limit_kbps = pos 0;
}

abbrev the_subscription : SubscriptionRow
the_subscription = record {
  id = pos 1;
  user_id = pos 2;
  plan_id = pos 1;
  started_at = 0;
  expires_at = none;
  is_active = true;
  notes = none;
  created_at = 0;
}

abbrev the_shop : Accounts
the_shop = record {
  users =
      user_of (pos 1) (text "ann") user_role_admin
      ∷ user_of (pos 2) (text "bob") user_role_user
      ∷ [];
  user_devices = [];
  subscription_plans = the_plan ∷ [];
  user_subscriptions = the_subscription ∷ [];
  password_reset_tokens =
      record {
        id = pos 1;
        user_id = pos 2;
        token = text "t";
        expires_at = text "dT" ++ (9000 ∷ []);
        is_used = false;
      }
      ∷ [];
  orders = the_order ∷ [];
  system_settings =
      (text "payment.alipay_public_key", text "k")
      ∷ (text "payment.stripe_webhook_secret", text "s")
      ∷ [];
  last_ids = record {
    users = 2;
    user_devices = 0;
    user_subscriptions = 1;
    password_reset_tokens = 1;
    orders = 1;
  };
  now = 5000;
  calls = 0;
}

shop-AreManned : AreManned the_shop
unfolding count list_eq
shop-AreManned = record { keyed = λ n. ground arith; manned = ground arith }

serve_all-AreManned_example : AreManned (
    serve_all the_sql
      (delete_request (pos 1) (pos 1)
        ∷ role_request (pos 1) (pos 2) (text "admin")
        ∷ update_request (pos 2) (pos 2) (some (text "ben")) none
        ∷ delete_request (pos 1) (pos 1)
        ∷ [])
      the_shop)
serve_all-AreManned_example =
    serve_all-AreManned the_sql
      (delete_request (pos 1) (pos 1)
        ∷ role_request (pos 1) (pos 2) (text "admin")
        ∷ update_request (pos 2) (pos 2) (some (text "ben")) none
        ∷ delete_request (pos 1) (pos 1)
        ∷ [])
      the_shop works shop-AreManned

shop-IsSingle : IsSingle the_shop
unfolding count
shop-IsSingle n = ground arith

change_all-IsSingle_example : IsSingle (
    change_all the_sql
      (create_one (pos 2) (pos 1) (some 9000) none
        ∷ update_one (pos 1) none none none
        ∷ deactivate_one (pos 2)
        ∷ [])
      the_shop)
change_all-IsSingle_example =
    change_all-IsSingle the_sql
      (create_one (pos 2) (pos 1) (some 9000) none
        ∷ update_one (pos 1) none none none
        ∷ deactivate_one (pos 2)
        ∷ [])
      the_shop shop-IsSingle

abbrev a_device : CreateDeviceRequest
a_device = record { user_id = pos 2; device_id = text "x"; device_name = none }

none_bound : Agrees (bindings the_shop.user_devices) (λ n d. false)
unfolding count
none_bound n d = refl

-- The second addition and the removal fail.
abbrev device_calls : List DeviceCall
device_calls = add_call a_device ∷ add_call a_device ∷ remove_call (pos 2) (text "x") ∷ []

call_devices-Agrees_example :
    Agrees
      (bindings (call_devices the_sql device_calls the_shop).user_devices)
      (set_calls the_sql device_calls the_shop (λ n d. false))
    × (removals the_sql device_calls the_shop ≡ 0)
call_devices-Agrees_example =
    call_devices-Agrees the_sql device_calls the_shop (λ n d. false) none_bound

outcome-add_device_to_user_example :
    outcome (pos 2) (add_device_to_user the_sql a_device the_shop)
    ≡ expected (may_add the_sql a_device the_shop) (devices_of (pos 2) the_shop)
outcome-add_device_to_user_example = outcome-add_device_to_user the_sql a_device the_shop works

bob_found :
    first (select (λ v. v.username == text "bob") the_shop.users)
    ≡ some (user_of (pos 2) (text "bob") user_role_user)
unfolding list_eq
bob_found = refl

login-web_reset_password_example :
    let asked = end (web_forgot_password the_sql (text "b@x")) the_shop in
    let t = end (web_reset_password (text "any") (text "secret9")) asked in
    (answer (web_forgot_password the_sql (text "b@x")) the_shop ≡ ok success)
    × (answer (web_reset_password (text "any") (text "secret9")) asked ≡ ok success)
    × (t.users ≡ the_shop.users)
    × (t.password_reset_tokens ≡ the_shop.password_reset_tokens)
    × (answer (login the_sql (text "bob") (text "secret9") none) t ≡ ok none)
unfolding list_eq
login-web_reset_password_example =
    login-web_reset_password the_sql (user_of (pos 2) (text "bob") user_role_user) (text "bob")
      (text "b@x") (text "any") (text "secret9") none the_shop works bob_found refl refl

activations_le_example :
    activations the_sql (text "n1") ((text "n1", text "g") ∷ (text "n1", text "h") ∷ []) the_shop
    ≤ 1
unfolding list_eq
activations_le_example =
    activations_le the_sql (text "n1") ((text "n1", text "g") ∷ (text "n1", text "h") ∷ []) the_shop
      (refl, tt)

abbrev a_notice : Map Text Text
a_notice = (text "out_trade_no", text "n1") ∷ (text "trade_status", text "TRADE_SUCCESS") ∷ []

is_forged : stripe_verify_webhook the_sql (text "s") (text "{}") (text "t=1,v1=11") ≡ false
unfolding stripe_verify_webhook read_parts split strip_prefix trim list_eq
is_forged = refl

notices-Untouched_example :
    Untouched the_shop (end (alipay_notify the_sql a_notice) the_shop)
    × Untouched the_shop (end (stripe_webhook the_sql (text "t=1,v1=11") (text "{}")) the_shop)
unfolding lookup list_eq
notices-Untouched_example =
    notices-Untouched the_sql a_notice (text "t=1,v1=11") (text "{}") the_shop refl is_forged

is_unused : count (is_namesake (text "eve") (text "e@x")) the_shop.users ≡ 0
unfolding count list_eq
is_unused = refl

login-register_example :
    (answer (register the_sql (text "eve") (text "e@x") (text "p") (text "p")) the_shop
      ≡ ok success)
    × (answer
          (login the_sql (text "eve") (text "p") none)
          (end (register the_sql (text "eve") (text "e@x") (text "p") (text "p")) the_shop)
        ≡ ok (
            some (
              response the_sql
                (new_user (text "eve") (text "e@x") (text "p") the_shop)
                (text "eve")
                (end (register the_sql (text "eve") (text "e@x") (text "p") (text "p")) the_shop))))
unfolding list_eq
login-register_example =
    login-register the_sql (text "eve") (text "e@x") (text "p") (text "p") (text "eve") the_shop
      works is_unused refl refl refl

abbrev spammer : IpEntry
spammer = record { ip = text "10.0.0.1"; comment = text "spam again" }

abbrev scanner : IpEntry
scanner = record { ip = text "10.0.0.2"; comment = [] }

spammer-IsClean : IsClean spammer
unfolding is_whitespace trim trim_end
spammer-IsClean = record {
  starts = refl;
  trimmed = refl;
  ends = refl;
  one_word = refl;
  no_return = refl;
  one_line = refl;
  comment_trimmed = refl;
  comment_ends = refl;
  comment_no_return = refl;
  comment_one_line = refl;
}

scanner-IsClean : IsClean scanner
unfolding is_whitespace trim trim_end
scanner-IsClean = record {
  starts = refl;
  trimmed = refl;
  ends = refl;
  one_word = refl;
  no_return = refl;
  one_line = refl;
  comment_trimmed = refl;
  comment_ends = refl;
  comment_no_return = refl;
  comment_one_line = refl;
}

is_not_listed : select (is_ip scanner.ip) (spammer ∷ []) ≡ []
unfolding list_eq
is_not_listed = refl

add_ip-load_list_example :
    let (reply, file) =
      add_ip
        (some (pos 1))
        (λ n. true)
        true
        (text "10.0.0.2")
        []
        (some (serialize_ip_file (spammer ∷ []))) in
    (reply ≡ IpLists.success)
    × (read_ip_file file ≡ spammer ∷ scanner ∷ [])
    × (contains (text "10.0.0.2") (load_list file []) ≡ (
        contains (text "10.0.0.2") (map ip_of_entry (spammer ∷ []))
        || (scanner.ip == text "10.0.0.2" || is_empty (text "10.0.0.2"))))
add_ip-load_list_example =
    add_ip-load_list (pos 1) (λ n. true) scanner (spammer ∷ []) (text "10.0.0.2") refl
      (spammer-IsClean, tt) scanner-IsClean is_not_listed
