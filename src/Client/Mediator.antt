-- ===== src/Client/Mediator.antt =====
-- nat-client/src/rendezvous_mediator.rs: the connection that keeps the client registered, `start_tcp`.
-- Times are milliseconds; a task that is spawned is put on a list.
pub mod Heartbeat
pub mod Enrolment
pub mod Jobs
pub mod Peering
pub mod Dialing
pub mod NatType
use nat_server.Common.{
  ℕ, suc, ◌+◌, ◌-◌, Bool, true, false, ◌&&◌, ◌||◌, not, Option, none, some, List, [], ◌∷◌, ◌++◌,
  ltb, leb, ◌==◌, list_has_eq, if◌then◌else◌, is_empty, map, unwrap_or, ◌^◌,
}
use nat_server.Common.Int.{ℤ, pos}
use nat_server.Common.Text.{Text, Bytes, split, parse_signed}
use nat_server.Common.Split.{rsplit_once}
use nat_server.Net.{Protocol, proto3}
use nat_server.Message
use nat_server.Message.{Message}
use nat_server.Client.Config.{
  ClientConfig, get_host_key_confirmed, set_host_key_confirmed, set_key_confirmed,
  get_rendezvous_servers, get_auth_token,
}

-- The codec, base64, the clock in seconds, and which sends succeed.
pub record MediatorEnv : Type 0 where
  pub parse : Bytes → Option Message
  pub can_encode : Message → Protocol → Bool
  pub base64_decode : Text → Option Bytes
  pub unix : ℕ → ℕ
  pub send_ok : ℕ → Bool

-- What the connection was given to send.
pub data Out : Type 0 where
  heartbeat : Out
  message : Message → Protocol → Out

-- The tasks that are spawned.
pub data Task : Type 0 where
  detect_nat_type : Task
  punch_hole_task : Message.PunchHole → Task
  request_relay_task : Message.RequestRelay → Task
  fetch_local_addr_task : Message.FetchLocalAddr → Task

-- The mediator with its connection, the settings, and the statics. `sends` counts the sends.
pub record Mediator : Type 0 where
  pub host : Text
  pub host_prefix : Text
  pub wire : Protocol
  pub config : ClientConfig
  pub online : Bool
  pub should_exit : Bool
  pub manual_restarted : Bool
  pub nat_detected : Bool
  pub last_register_sent : Option ℕ
  pub last_recv_msg : ℕ
  pub sent : List Out
  pub tasks : List Task
  pub sends : ℕ

-- How the loop goes on: with the next event, out of the loop, or out with an error.
pub data Turn : Type 0 where
  goes_on stopped failed : Turn

abbrev pub Step : Type 0
Step = Turn × Mediator

abbrev pub keeps : Mediator → Step
keeps m = (goes_on, m)

-- `?` after a send.
abbrev pub then_do : (Mediator → Step) → Step → Step
then_do f (goes_on, m) = f m
then_do f (stopped, m) = (stopped, m)
then_do f (failed, m) = (failed, m)

-- The first part of the host's name, or all of the host without its port if that is a number.
abbrev pub host_only : Text → Text
host_only host = elim (rsplit_once b':' host) as (λ _. Text) [ none ↦ host | some (h, p) ↦ h ]

abbrev pub prefix_of : Text → List Text → Text
prefix_of host [] = host
prefix_of host (x ∷ xs) = elim (parse_signed (2 ^ 31) x) as (λ _. Text) [ none ↦ x | some n ↦ host ]

unfoldable pub get_host_prefix : Text → Text
get_host_prefix host = prefix_of (host_only host) (split b'.' (host_only host))

-- `join(",")`.
abbrev pub join : List Text → Text
join [] = []
join (x ∷ []) = x
join (x ∷ y ∷ xs) = x ++ (b',' ∷ join (y ∷ xs))

abbrev pub reg_interval : ℕ
reg_interval = 15_000

abbrev pub restart : Mediator → Mediator
restart m = record m { should_exit = true; manual_restarted = true }

-- A task for the NAT type, unless that is known.
abbrev pub spawn_detection : Mediator → Mediator
spawn_detection m = if m.nat_detected then m else record m { tasks = detect_nat_type ∷ m.tasks }

-- The client is online, and the NAT type is detected once.
abbrev pub gone_online : Mediator → Mediator
gone_online m = spawn_detection (record m { online = true })

-- `ConfigureUpdate`: another list of servers is kept, and the mediator restarts.
unfoldable pub configure_update : Message.ConfigUpdate → Mediator → Mediator
configure_update cu m =
    let servers = join cu.rendezvous_servers in
    if not (is_empty servers) && not (servers == join (get_rendezvous_servers m.config))
    then restart (record m { config = record (m.config) { rendezvous_servers = servers } })
    else m

abbrev pub needs_registration : Mediator → Bool
needs_registration m =
    not m.config.key_confirmed || not (get_host_key_confirmed m.host_prefix m.config)

-- How long ago the last registration was sent.
abbrev pub since_sent : ℕ → Option ℕ → ℕ
since_sent now none = reg_interval
since_sent now (some t) = now - t

abbrev pub sent_at : ℕ → Mediator → Step
sent_at now m = keeps (record m { last_register_sent = some now })

-- An event and its time.
pub data Event : Type 0 where
  frame : ℕ → Option Bytes → Event
  timer : ℕ → Event

module _ (e : MediatorEnv) where
  -- One send on the connection.
  unfoldable pub put : Out → Mediator → Step
  put o m =
      let m' = record m { sends = suc m.sends } in
      if e.send_ok m.sends then (goes_on, record m' { sent = o ∷ m.sent }) else (failed, m')

  -- `send_rendezvous`: in the wire protocol, or in proto3 where that cannot carry the message.
  unfoldable pub send_rendezvous : Message → Mediator → Step
  unfolding put
  send_rendezvous x m = put (message x (if e.can_encode x m.wire then m.wire else proto3)) m

  unfoldable pub register_peer : Mediator → Step
  unfolding send_rendezvous
  register_peer m =
      send_rendezvous (Message.register_peer (record { id = m.config.id; serial = pos 0 })) m

  -- The key and the uuid of the settings, with the user's token if it is valid at this time.
  abbrev pub register_pk_message : ℕ → ClientConfig → Message.RegisterPk
  register_pk_message now c = record {
    id = c.id;
    uuid = unwrap_or (e.base64_decode c.uuid) [];
    pk = unwrap_or (e.base64_decode c.pk) [];
    old_id = [];
    no_register_device = false;
    user_token = unwrap_or (get_auth_token (e.unix now) c) [];
  }

  unfoldable pub register_pk : ℕ → Mediator → Step
  unfolding send_rendezvous
  register_pk now m = send_rendezvous (Message.register_pk (register_pk_message now m.config)) m

  unfoldable pub handle_pk_response : ℕ → Message.PkResult → Mediator → Step
  handle_pk_response now Message.registered m = keeps (
      gone_online (record m {
        config = set_host_key_confirmed m.host_prefix true (set_key_confirmed true m.config);
      }))
  handle_pk_response now Message.uuid_mismatch m =
      register_pk now (record m { config = set_key_confirmed false m.config })
  handle_pk_response now Message.id_exists m = keeps m
  handle_pk_response now Message.too_frequent m = keeps m
  handle_pk_response now Message.invalid_id_format m = keeps m
  handle_pk_response now Message.not_support m = keeps m
  handle_pk_response now Message.server_error m = keeps m

  unfoldable pub handle_msg : ℕ → Message → Mediator → Step
  handle_msg now (Message.register_peer_response request_pk) m =
      let m' = record m { last_register_sent = none } in
      if request_pk then register_pk now m' else keeps (gone_online m')
  handle_msg now (Message.register_pk_response r) m = handle_pk_response now r.result m
  handle_msg now (Message.punch_hole ph) m =
      keeps (record m { tasks = punch_hole_task ph ∷ m.tasks })
  handle_msg now (Message.request_relay rr) m =
      keeps (record m { tasks = request_relay_task rr ∷ m.tasks })
  handle_msg now (Message.fetch_local_addr fla) m =
      keeps (record m { tasks = fetch_local_addr_task fla ∷ m.tasks })
  handle_msg now (Message.configure_update cu) m = keeps (configure_update cu m)
  handle_msg now _ m = keeps m

  abbrev pub handle_parsed : ℕ → Option Message → Mediator → Step
  handle_parsed now none m = (failed, m)
  handle_parsed now (some x) m = handle_msg now x m

  abbrev pub handle_bytes : ℕ → Bytes → Mediator → Step
  handle_bytes now bytes m =
      if is_empty bytes then put heartbeat m else handle_parsed now (e.parse bytes) m

  -- A frame of the server; `none` where the connection broke or ended.
  unfoldable pub receive : ℕ → Option Bytes → Mediator → Step
  receive now none m = (failed, record m { last_recv_msg = now })
  receive now (some bytes) m = handle_bytes now bytes (record m { last_recv_msg = now })

  -- The timer, which goes off each 500 ms.
  unfoldable pub tick : ℕ → Mediator → Step
  tick now m =
      if m.should_exit
      then (stopped, m)
      else if ltb 22_500 (now - m.last_recv_msg)
      then (failed, m)
      else if leb reg_interval (since_sent now m.last_register_sent)
      then then_do (sent_at now)
          (if needs_registration m then register_pk now m else register_peer m)
      else keeps m

  abbrev pub step : Event → Mediator → Step
  step (frame now b) m = receive now b m
  step (timer now) m = tick now m

  -- The loop of `start_tcp` over what happens, until it ends.
  unfoldable pub run : List Event → Mediator → Step
  run [] m = keeps m
  run (x ∷ xs) m = then_do (run xs) (step x m)

  -- The loop's start, on a new connection.
  abbrev pub started : ℕ → Text → ClientConfig → Bool → Bool → Mediator
  started now host c online nat_detected = record {
    host = host;
    host_prefix = get_host_prefix host;
    wire = c.rendezvous_wire_protocol;
    config = set_host_key_confirmed (get_host_prefix host) false c;
    online = online;
    should_exit = false;
    manual_restarted = false;
    nat_detected = nat_detected;
    last_register_sent = none;
    last_recv_msg = now;
    sent = [];
    tasks = [];
    sends = 0;
  }
