-- ===== src/Client/Mediator/NatType.antt =====
-- `detect_nat_type` of nat-client/src/rendezvous_mediator.rs.
pub mod Ports
use nat_server.Common.{ℕ, Bool, ◌&&◌, Option, none, some, if◌then◌else◌}
use nat_server.Common.Int.{ℤ, pos, ltb_ℤ, eq_ℤ}
use nat_server.Common.Text.{Text, Bytes}
use nat_server.Net.{Protocol}
use nat_server.Message
use nat_server.Message.{Message}
use nat_server.Client.Mediator.Jobs.{JobEnv, Job, pure, bail, ask, ◌>>=◌, ◌>>◌, connect_tcp, tell}

-- `TestNatRequest` on a new connection: the port that the server sees.
abbrev pub seen_port : Option Message → Job ℤ
seen_port (some (Message.test_nat_response r)) = pure r.port
seen_port _ = bail

module _ (e : JobEnv) where
  unfoldable pub query_nat_port : Text → Protocol → Job ℤ
  query_nat_port host wire = do
    _ ← connect_tcp e
    tell e host (Message.test_nat_request (pos 0)) wire
    bytes ← ask e.replies
    elim bytes [ none ↦ bail | some b ↦ seen_port (e.parse b) ]

  -- 1 for the same port, 2 for another, 0 where one is unknown.
  unfoldable pub detect_nat_type_inner : Text → Protocol → Job ℕ
  detect_nat_type_inner host wire = do
    port1 ← query_nat_port host wire
    port2 ← query_nat_port host wire
    pure (
        if ltb_ℤ (pos 0) port1 && ltb_ℤ (pos 0) port2
        then (if eq_ℤ port1 port2 then 1 else 2)
        else 0)
