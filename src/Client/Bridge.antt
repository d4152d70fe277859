-- ===== src/Client/Bridge.antt =====
-- The two tasks of `bridge_with_relay` of nat-client/src/socks5.rs and of `bridge_relay_and_target`
-- of nat-client/src/rendezvous_mediator.rs, which share the relay connection under a mutex, and the two
-- bridges at the ends of a relayed connection.
pub mod Waiting
use nat_server.Common.{Bool, true, false, Option, none, some, List, [], ◌∷◌, ◌++◌, ◌≡◌}
use nat_server.Common.Text.{Bytes}

-- Who has the lock on the relay connection: no one, or the task that waits for a frame of the relay.
-- The task that sends has it for the time of one send only.
pub data Holder : Type 0 where
  free receiving : Holder

-- `held` is the chunk that was read from the local connection and is not sent yet, `got` the frame that
-- came from the relay and is not written yet; `sends` and `receives` tell whether the tasks go on.
pub record Bridge : Type 0 where
  pub local_in : List Bytes
  pub held : Option Bytes
  pub to_relay : List Bytes
  pub sends : Bool
  pub relay_in : List Bytes
  pub got : Option Bytes
  pub to_local : List Bytes
  pub receives : Bool
  pub holder : Holder

-- What the tasks do, with their failures and the ends of the connections, and what the local program may
-- send. A task that breaks has ended; as the tasks are spawned, the `select!` after them does not end the
-- other one.
pub data Step (s : Bridge) (t : Bridge) : Type 0 where
  read_local :
      (c : Bytes) (rest : List Bytes)
      → s.sends ≡ true
      → s.held ≡ none
      → s.local_in ≡ c ∷ rest
      → t ≡ record s { local_in = rest; held = some c }
      → Step s t
  end_local : s.sends ≡ true → s.held ≡ none → t ≡ record s { sends = false } → Step s t
  send_held :
      (c : Bytes)
      → s.holder ≡ free
      → s.held ≡ some c
      → t ≡ record s { held = none; to_relay = s.to_relay ++ (c ∷ []) }
      → Step s t
  fail_send :
      (c : Bytes)
      → s.holder ≡ free
      → s.held ≡ some c
      → t ≡ record s { held = none; sends = false }
      → Step s t
  lock_relay :
      s.holder ≡ free
      → s.receives ≡ true
      → s.got ≡ none
      → t ≡ record s { holder = receiving }
      → Step s t
  receive :
      (f : Bytes) (rest : List Bytes)
      → s.holder ≡ receiving
      → s.relay_in ≡ f ∷ rest
      → t ≡ record s { relay_in = rest; got = some f; holder = free }
      → Step s t
  end_relay : s.holder ≡ receiving → t ≡ record s { receives = false; holder = free } → Step s t
  write_local :
      (f : Bytes)
      → s.got ≡ some f
      → t ≡ record s { got = none; to_local = s.to_local ++ (f ∷ []) }
      → Step s t
  fail_write :
      (f : Bytes) → s.got ≡ some f → t ≡ record s { got = none; receives = false } → Step s t
  local_sends : (c : Bytes) → t ≡ record s { local_in = s.local_in ++ (c ∷ []) } → Step s t

-- The start.
abbrev pub opened : Bridge
opened = record {
  local_in = [];
  held = none;
  to_relay = [];
  sends = true;
  relay_in = [];
  got = none;
  to_local = [];
  receives = true;
  holder = free;
}

-- The bridges of the caller and of the exit node, and what the relay server has carried so far.
pub record Joined : Type 0 where
  pub caller : Bridge
  pub exit : Bridge
  pub to_exit : List Bytes
  pub to_caller : List Bytes

-- The relay server carries the frames of each side to the other, in order.
pub data Move (s : Joined) (t : Joined) : Type 0 where
  caller_steps : {b : Bridge} → Step s.caller b → t ≡ record s { caller = b } → Move s t
  exit_steps : {b : Bridge} → Step s.exit b → t ≡ record s { exit = b } → Move s t
  carry_to_exit :
      (f : Bytes) (rest : List Bytes)
      → s.caller.to_relay ≡ s.to_exit ++ (f ∷ rest)
      → t ≡ record s {
        to_exit = s.to_exit ++ (f ∷ []);
        exit = record s.exit { relay_in = s.exit.relay_in ++ (f ∷ []) };
      }
      → Move s t
  carry_to_caller :
      (f : Bytes) (rest : List Bytes)
      → s.exit.to_relay ≡ s.to_caller ++ (f ∷ rest)
      → t ≡ record s {
        to_caller = s.to_caller ++ (f ∷ []);
        caller = record s.caller { relay_in = s.caller.relay_in ++ (f ∷ []) };
      }
      → Move s t

-- Any number of moves.
pub data Moves (s : Joined) : Joined → Type 0 where
  here : Moves s s
  next : {t u : Joined} → Moves s t → Move t u → Moves s u

abbrev pub both_opened : Joined
both_opened = record { caller = opened; exit = opened; to_exit = []; to_caller = [] }
