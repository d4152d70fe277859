-- ===== src/Lib.antt =====
-- nat-server: the rendezvous server (hbbs) and the relay server (hbbr).
--
-- Peers register their id, uuid and public key with the rendezvous server, over UDP or TCP, and
-- renew the registration every few seconds. A peer A that wants to reach a peer B asks the server,
-- which tells B where A is (punch hole, or local addresses where both are in one network) and passes
-- B's answer on to A; where that does not work, both connect to the relay server with a common uuid,
-- which copies between them. Both servers have a console for local callers.
--
-- Files and what they model:
--   Common: shared names, tests, lists, integers, maps as association lists, texts as code points,
--     with their lengths in UTF-8.
--   Net, Message: std::net addresses; src of libs/core-common: rendezvous_codec.rs (protocol by the
--     first byte) and protos/rendezvous.proto (the messages).
--   Database: the tables and the statements of src/database.rs that the server runs.
--   State: the state that all handlers share (Server), the world around them (Env), and their monad.
--   PeerMap: src/peer.rs. Peers: the map and its entries; Token: validate_peer_token; get, get_or
--     and update_pk in the file itself; Steps: get in the steps between which it holds no lock.
--     Laws, Register, Others and Reload hold theorems on them.
--   Rendezvous: src/rendezvous_server.rs. Limits: check_ip_blocker and the limits of RegisterPk;
--     Output: what is sent; Relays: relay servers, get_pk, is_lan; Punch: punch holes and the
--     answers to them; Register: RegisterPk and update_addr; Udp: handle_udp; Tcp: handle_tcp;
--     Online: handle_online_request; Cmd: check_cmd; Loop: io_loop, the listeners,
--     check_relay_servers. Frame and the modules below each of these hold theorems on them.
--   Relay: src/relay_server.rs. Types: the statics; Lists: the two address lists and their files;
--     Cmd: check_cmd and check_params; Pair: handle_connection and make_pair_; Loop: relay. The
--     modules below these hold theorems on them.
--   Accounts: users, devices, tokens, subscriptions, orders and settings. Store: the tables of
--     src/database.rs, src/subscription.rs and src/payment.rs, and the monad of the methods on
--     them; Users: src/database.rs and the handlers of src/api.rs that delete users and change
--     roles; Signup: the handlers of src/api.rs and src/web.rs that make and change users, and
--     login; Devices, Settings: src/database.rs; IpLists, Toml: the address lists, config.toml and
--     hbbr.toml of src/settings_api.rs, in Toml.Loaded what src/hbbr.rs reads of them, and in
--     Toml.Started what start and get_server_sk of src/relay_server.rs make of that; Tokens:
--     src/database.rs, src/password_reset.rs and the handlers of src/web.rs that are served;
--     Subscriptions: src/subscription.rs; Orders, Gateways: src/payment.rs. The modules below these
--     hold theorems on them.
--   Client: nat-client/src. Proxy: connect_via_relay of socks5.rs, and handle_proxy_relay of
--     rendezvous_mediator.rs, which reads what it sends; Socks: the dialogues of socks5.rs; Bridge:
--     bridge_with_relay, and with it bridge_relay_and_target of rendezvous_mediator.rs; Updater: updater.rs; Config: config.rs; Mediator: start_tcp and handle_msg
--     of rendezvous_mediator.rs, with Jobs (what a task asks of the network and what it does),
--     Peering (the tasks on the server's questions), NatType, and Dialing (connect_to_peer, with
--     the tunnels of port_forward.rs); Kcp: the handshake of kcp_tunnel.rs. The modules below these
--     hold theorems on them, some together with the server.
--   Codec: libs/core-common/src/rendezvous_codec.rs, with the structs of rendezvous.capnp in Schema.
--   Examples: concrete values, and every result at one of them.
--
-- How the program is read:
--   * A handler is a function of the state that returns the new state and a result. What was
--     changed before an error stays changed. Handlers run one after the other, but for
--     PeerMap.Steps, where another one runs between the steps of `get`; inside a handler the clock
--     does not move. Main loop, connections and waiting tasks take turns as events
--     (Rendezvous.Loop.step, Relay.Loop.round, Relay.Pair.expire), in any order.
--   * A clone of RendezvousServer copies the fields of Conf and shares the rest: a connection works
--     on the configuration of the time when it was accepted.
--   * Times are milliseconds; `elapsed` stops at 0. `as i32` and `usize` wrap as written out. A
--     HashMap is an association list; where the code goes through a map, the order is the list's.
--   * What cannot be read here is a field of Env, RelayEnv, Sql, ProxyEnv, SocksEnv, MediatorEnv,
--     JobEnv, Ini, KeyEnv or Crates: address mangling, codecs, sockets and name resolution, SQL failures (by the
--     number of the call), random guids, signatures, JWT and JSON, floating point.
--   * In Accounts, a table is the list of its rows, a statement of SQL is a function on the tables
--     that fails as a whole (constraints and foreign keys are in it), and a method is a chain of
--     statements, each of which may fail (by its number); where a method keeps one connection, the
--     model asks for one at each statement, so that more may fail. Times are seconds; where the
--     code compares the texts of times, so does the model, and how the driver writes them is a
--     field of Sql.
--   * A connection of the client is the list of the bytes that arrive on it. The two tasks of each
--     bridge of a proxied connection take turns in any order, and so do the two bridges; any send or
--     write may fail, and any connection may end.
--   * The client's mediator is a function of one event (a frame, a tick of its timer); a task is a
--     function that numbers its questions to the network (does this connection succeed, which port
--     has this listener), so that each may be answered in any way, and that lists what it does. The
--     handshake before KCP is a relation of steps, with datagrams that are lost or overtaken.
--   * A file is its text, or none where it cannot be read; a write that fails leaves it as it was.
--   * All loops are over finite lists of inputs, so there is no fuel.
--
-- Not modelled: the start of the servers (sockets, key files, the settings of hbbs), test_hbbs,
-- the waiting in the bandwidth limiters, the WebSocket handshake of the relay; the making of
-- tables, lists for web pages, the decoding of logins' tokens, the outgoing calls of the payment
-- gateways; of the client, the loop that connects to all servers again and again, the copying of
-- direct and KCP tunnels, KCP itself, the scan of local services, the local network search, its
-- window and its files; the copy of hbb_common in libs/core-common but for the codec.
pub mod Common
pub mod Net
pub mod Message
pub mod Database
pub mod State
pub mod PeerMap
pub mod Rendezvous
pub mod Relay
pub mod Accounts
pub mod Client
pub mod Codec
pub mod Examples
