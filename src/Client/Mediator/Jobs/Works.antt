-- ===== src/Client/Mediator/Jobs/Works.antt =====
-- On tasks of nat-client/src/rendezvous_mediator.rs over a network that works.
use nat_server.Common.{suc, true, Option, none, some, List, ◌∷◌, [], ◌≡◌, arith, if◌then◌else◌}
use nat_server.Common.Text.{Text}
use nat_server.Net.{SocketAddr, Protocol, proto3}
use nat_server.Message.{Message}
use nat_server.Client.Mediator.Jobs.{JobEnv, Act, told, Work, connect_tcp, must, tell}

-- What was done last.
abbrev pub last_act : List Act → Option Act
last_act [] = none
last_act (a ∷ acts) = some a

abbrev pub asked_once : Work → Work
asked_once w = record w { calls = suc w.calls }

-- A message is sent in the wire protocol where that carries it.
abbrev pub sent_as : JobEnv → Message → Protocol → Protocol
sent_as e x wire = if e.can_encode x wire then wire else proto3

pub connect_tcp_works :
    (e : JobEnv) (local : SocketAddr) (w : Work)
    → e.connects w.calls ≡ some local
    → connect_tcp e w ≡ (some local, asked_once w)
unfolding connect_tcp
connect_tcp_works e local w h = ground (arith, h)

pub tell_works :
    (e : JobEnv) (host : Text) (x : Message) (wire : Protocol) (w : Work)
    → e.sends w.calls ≡ true
    → tell e host x wire w
      ≡ (some tt, record w { acts = told host x (sent_as e x wire) ∷ w.acts; calls = suc w.calls })
unfolding tell must
tell_works e host x wire w h = ground (arith, h)
