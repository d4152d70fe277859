-- ===== src/Client/Config.antt =====
-- nat-client/src/config.rs: the settings of the client. A change is a function of the settings; what is
-- written to the file is not modelled.
pub mod Rules
pub mod Setup
use nat_server.Common.{
  ℕ, ◌+◌, Bool, true, false, ◌&&◌, ◌||◌, not, Option, none, some, List, [], ◌∷◌, ◌++◌, ltb, leb,
  nat_eq, ◌==◌, list_has_eq, if◌then◌else◌, is_empty, select, map, unwrap_or,
}
use nat_server.Common.Int.{ℤ, pos, negsuc}
use nat_server.Common.Map.{Map, lookup, insert}
use nat_server.Common.Text.{Text, Bytes, text, trim, split}
use nat_server.Common.Split.{split_once}
use nat_server.Net.{Protocol}
use nat_server.Database.{first}

pub record ForwardRule : Type 0 where
  pub id : Text
  pub name : Text
  pub peer_id : Text
  pub target_host : Text
  pub target_port : ℕ
  pub enabled : Bool

-- Without the port for direct access and the settings of the window and of the local proxies.
pub record ClientConfig : Type 0 where
  pub id : Text
  pub uuid : Text
  pub sk : Text
  pub pk : Text
  pub key_confirmed : Bool
  pub host_keys_confirmed : Map Text Bool
  pub rendezvous_servers : Text
  pub rendezvous_wire_protocol : Protocol
  pub relay_server : Text
  pub ipc_port : ℕ
  pub nat_type : ℤ
  pub api_url : Text
  pub auth_token : Text
  pub auth_token_expires : ℤ
  pub auth_user_id : ℤ
  pub auth_username : Text
  pub auth_role : Text
  pub auth_device_row_id : ℤ
  pub forward_rules : List ForwardRule

-- `ForwardRule::new`, for a new id.
abbrev pub new_rule : Text → Text → ℕ → ForwardRule
new_rule id name target_port = record {
  id = id;
  name = name;
  peer_id = [];
  target_host = text "127.0.0.1";
  target_port = target_port;
  enabled = true;
}

abbrev pub set_key_confirmed : Bool → ClientConfig → ClientConfig
set_key_confirmed v c = record c { key_confirmed = v }

unfoldable pub get_host_key_confirmed : Text → ClientConfig → Bool
get_host_key_confirmed prefix c = unwrap_or (lookup prefix c.host_keys_confirmed) false

abbrev pub set_host_key_confirmed : Text → Bool → ClientConfig → ClientConfig
set_host_key_confirmed prefix v c = record c {
  host_keys_confirmed = insert prefix v c.host_keys_confirmed;
}

abbrev pub not_blank : Text → Bool
not_blank s = not (is_empty (trim s))

unfoldable pub get_rendezvous_servers : ClientConfig → List Text
get_rendezvous_servers c = map trim (select not_blank (split b',' c.rendezvous_servers))

-- Has the token run out at this time, in seconds? 30 seconds are kept in hand.
abbrev pub is_expired : ℤ → ℕ → Bool
is_expired (pos e) now = ltb 0 e && leb e (now + 30)
is_expired (negsuc e) now = false

unfoldable pub get_auth_token : ℕ → ClientConfig → Option Text
get_auth_token now c =
    if is_empty c.auth_token
    then none
    else if is_expired c.auth_token_expires now
    then none
    else some c.auth_token

unfoldable pub save_login : Text → ℤ → ℤ → Text → Text → ℤ → ClientConfig → ClientConfig
save_login token expires user_id username role device_row_id c = record c {
  auth_token = token;
  auth_token_expires = expires;
  auth_user_id = user_id;
  auth_username = username;
  auth_role = role;
  auth_device_row_id = device_row_id;
}

unfoldable pub clear_login : ClientConfig → ClientConfig
clear_login c = record c {
  auth_token = [];
  auth_token_expires = pos 0;
  auth_user_id = pos 0;
  auth_username = [];
  auth_role = [];
  auth_device_row_id = pos 0;
}

-- The part before the first colon, or all of it.
abbrev pub host_part : Text → Text
host_part s = elim (split_once b':' s) as (λ _. Text) [ none ↦ s | some (h, p) ↦ h ]

unfoldable pub get_api_url : ClientConfig → Text
get_api_url c =
    if is_empty c.api_url
    then elim (get_rendezvous_servers c) as (λ _. Text) [
      | [] ↦ []
      | s ∷ rest ↦ text "http://" ++ (host_part s ++ text ":8080")
    ]
    else c.api_url

-- Two rules of this name for this port.
abbrev pub is_same_rule : ForwardRule → ForwardRule → Bool
is_same_rule rule r = r.name == rule.name && nat_eq r.target_port rule.target_port

unfoldable pub add_rule : ForwardRule → ClientConfig → ClientConfig
add_rule rule c =
    if is_empty (select (is_same_rule rule) c.forward_rules)
    then record c { forward_rules = c.forward_rules ++ (rule ∷ []) }
    else c

unfoldable pub remove_rule : Text → ClientConfig → ClientConfig
remove_rule rule_id c = record c {
  forward_rules = select (λ r. not (r.id == rule_id)) c.forward_rules;
}

abbrev pub is_rule_for : Text → ForwardRule → Bool
is_rule_for peer_id r = not (is_empty r.peer_id) && r.peer_id == peer_id

abbrev pub is_rule_for_all : ForwardRule → Bool
is_rule_for_all r = is_empty r.peer_id

abbrev pub target_of_rule : ForwardRule → Text × ℕ
target_of_rule r = (r.target_host, r.target_port)

abbrev pub is_enabled : ForwardRule → Bool
is_enabled r = r.enabled

unfoldable pub find_target_for_peer : Text → ClientConfig → Option (Text × ℕ)
find_target_for_peer peer_id c =
    let enabled = select is_enabled c.forward_rules in
    elim (first (select (is_rule_for peer_id) enabled)) as (λ _. Option (Text × ℕ)) [
      | some r ↦ some (target_of_rule r)
      | none ↦ elim (first (select is_rule_for_all enabled)) as (λ _. Option (Text × ℕ)) [
        | some r ↦ some (target_of_rule r)
        | none ↦ none
      ]
    ]

-- What `init` makes where it is missing: an id, a uuid, a private and a public key.
pub record Fresh : Type 0 where
  pub id : Text
  pub uuid : Text
  pub sk : Text
  pub pk : Text

-- What the command line overrides.
pub record Overrides : Type 0 where
  pub rendezvous_servers : Option Text
  pub relay_server : Option Text
  pub id : Option Text
  pub ipc_port : Option ℕ
  pub rendezvous_wire : Option Protocol

abbrev pub overridden : Overrides → ClientConfig → ClientConfig
overridden o c = record c {
  rendezvous_servers = unwrap_or o.rendezvous_servers c.rendezvous_servers;
  relay_server = unwrap_or o.relay_server c.relay_server;
  ipc_port = unwrap_or o.ipc_port c.ipc_port;
  rendezvous_wire_protocol = unwrap_or o.rendezvous_wire c.rendezvous_wire_protocol;
  id = unwrap_or o.id c.id;
}

abbrev pub or_fresh : Text → Text → Text
or_fresh fresh s = if is_empty s then fresh else s

abbrev pub with_keys : Fresh → ClientConfig → ClientConfig
with_keys f c =
    if is_empty c.sk || is_empty c.pk
    then record c { sk = f.sk; pk = f.pk; key_confirmed = false }
    else c

unfoldable pub init : Fresh → Overrides → ClientConfig → ClientConfig
init f o c =
    let c' = overridden o c in
    with_keys f (record c' { id = or_fresh f.id c'.id; uuid = or_fresh f.uuid c'.uuid })
