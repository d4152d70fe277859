-- ===== src/Rendezvous/Cmd.antt =====
-- `check_cmd` of src/rendezvous_server.rs: the commands of the local console. A reply is a list of
-- lines, each with the values that its text shows.
pub mod Relays
use nat_server.Common.{drop}
use nat_server.Rendezvous.Limits.{secs, ip_block_dur, day_seconds, ip_change_dur}
use nat_server.Rendezvous.Output.{enqueue}
use nat_server.Rendezvous.Relays.{get_relay_server}
use nat_server.Common.{
  ℕ, ◌*◌, ◌^◌, Bool, ◌&&◌, ◌||◌, Option, none, some, List, [], ◌∷◌, ◌++◌, ltb, leb, nat_eq, ◌==◌,
  list_has_eq, nat_has_eq, if◌then◌else◌, unwrap_or, length, select, take, map,
}
use nat_server.Common.Int.{pos}
use nat_server.Common.Map.{Map, lookup, remove}
use nat_server.Common.Text.{Text, text, trim, split, parse_signed, parse_unsigned}
use nat_server.Net.{ip_has_eq, addr_has_eq}
use nat_server.State.{
  BlockEntry, PunchReqEntry, relay_servers0, Env, ok, M, pure, gets, ◌>>=◌, ◌>>◌, modify,
}

pub data Line : Type 0 where
  help : Line
  server : Text → Line
  count : ℕ → Line
  blocked : Text → BlockEntry → Line
  changes : Text → ℕ × Map Text ℕ → Line
  punch : PunchReqEntry → Line
  flag : Bool → Line
  quoted : Text → Line

abbrev pub servers : List Text → List Line
servers = map server

-- relay-servers(rs) <separated by ,>
unfoldable pub cmd_relay_servers : List Text → M (List Line)
cmd_relay_servers [] = gets λ s. servers s.conf.relay_servers
cmd_relay_servers (rs ∷ _) = enqueue (relay_servers0 rs) >> pure []

-- The number in an argument, or -1; `none` for a negative one.
abbrev pub number_of : Option Text → Option ℕ
number_of none = none
number_of (some a) = elim (parse_signed (2 ^ 31) a) [ some (pos n) ↦ some n | _ ↦ none ]

-- Ten entries from `start` on.
abbrev pub page {ℓ} : {A : Type ℓ} → ℕ → List A → List A
page start xs = take 10 (drop start xs)

-- The entries that `ip-blocker` keeps.
unfoldable pub is_block_live : ℕ → Text × BlockEntry → Bool
is_block_live now (ip, e) =
    leb (secs now e.counter.1) ip_block_dur || leb (secs now e.ids.1) day_seconds

abbrev pub blocked_line : Text × BlockEntry → Line
blocked_line (ip, e) = blocked ip e

-- ip-blocker(ib) [<ip>|<number>] [-]
unfoldable pub cmd_ip_blocker : List Text → M (List Line)
cmd_ip_blocker args s =
    let live = select (is_block_live s.now) s.ip_blocker in
    let s' = record s { ip_blocker = live } in
    let total = count (length live) in
    elim args [
      | [] ↦ (ok (total ∷ map blocked_line (page 0 live)), s')
      | ip ∷ rest ↦ elim (number_of (some ip)) [
        | some start ↦ (ok (total ∷ map blocked_line (page start live)), s')
        | none ↦
            let shown : List Line = elim (lookup ip live) [
              | none ↦ []
              | some e ↦ blocked ip e ∷ []
            ] in
            (
              ok (total ∷ shown),
              elim rest [
                | [] ↦ s'
                | w ∷ _ ↦ if w == text "-" then record s { ip_blocker = remove ip live } else s'
              ],
            )
      ]
    ]

-- The entries that `ip-changes` keeps.
unfoldable pub is_change_live : ℕ → Text × (ℕ × Map Text ℕ) → Bool
is_change_live now (id, (tm, ips)) = ltb (secs now tm) (ip_change_dur * 2) && ltb 1 (length ips)

abbrev pub change_line : Text × (ℕ × Map Text ℕ) → Line
change_line (id, v) = changes id v

-- ip-changes(ic) [<id>|<number>] [-]: a number above ten million is looked up as an id, and then
-- also taken as a page.
unfoldable pub cmd_ip_changes : List Text → M (List Line)
cmd_ip_changes args s =
    let live = select (is_change_live s.now) s.ip_changes in
    let s' = record s { ip_changes = live } in
    let total = count (length live) in
    elim args [
      | [] ↦ (ok (total ∷ map change_line (page 0 live)), s')
      | id ∷ rest ↦
          let shown : List Line = elim (lookup id live) [
            | none ↦ []
            | some v ↦ changes id v ∷ []
          ] in
          let kept : Map Text (ℕ × Map Text ℕ) = elim rest [
            | [] ↦ live
            | w ∷ _ ↦ if w == text "-" then remove id live else live
          ] in
          elim (number_of (some id)) [
            | some start ↦
                if leb start 10_000_000
                then (ok (total ∷ map change_line (page start live)), s')
                else (
                  ok (total ∷ (shown ++ map change_line (page start kept))),
                  record s { ip_changes = kept },
                )
            | none ↦ (ok (total ∷ shown), record s { ip_changes = kept })
          ]
    ]

abbrev pub usize_of : Option Text → Option ℕ
usize_of none = none
usize_of (some a) = parse_unsigned (2 ^ 64) a

abbrev pub head_of : List Text → Option Text
head_of [] = none
head_of (w ∷ _) = some w

-- The page size: ten for none, or for 0.
abbrev pub page_size : Option ℕ → ℕ
page_size none = 10
page_size (some n) = if nat_eq n 0 then 10 else n

-- punch-requests(pr) [<number>] [-]
unfoldable pub cmd_punch_requests : List Text → M (List Line)
cmd_punch_requests [] = gets λ s. map punch (take 10 s.punch_reqs)
cmd_punch_requests (arg ∷ rest) =
    if arg == text "-"
    then modify (λ s. record s { punch_reqs = [] }) >> pure []
    else gets λ s. map punch (
        take (page_size (usize_of (head_of rest)))
          (drop (unwrap_or (usize_of (some arg)) 0) s.punch_reqs))

-- always-use-relay(aur): the argument is sent on as a list of relay servers, too.
unfoldable pub cmd_always_use_relay : List Text → M (List Line)
cmd_always_use_relay [] = gets λ s. flag s.always_use_relay ∷ []
cmd_always_use_relay (rs ∷ _) = do
  modify (λ s. record s { always_use_relay = rs == text "Y" || rs == text "y" })
  enqueue (relay_servers0 rs)
  pure []

abbrev pub quoted_relay : M (List Line)
quoted_relay = do relay ← get_relay_server; pure (quoted relay ∷ [])

-- test-geo(tg) <ip1> <ip2>
unfoldable pub cmd_test_geo : Env → List Text → M (List Line)
cmd_test_geo env [] = pure []
cmd_test_geo env (a ∷ rest) = elim (env.parse_ip a) [
  | none ↦ pure []
  | some ip ↦ elim rest [
    | [] ↦ quoted_relay
    | b ∷ _ ↦ elim (env.parse_ip b) [ none ↦ pure [] | some ip' ↦ quoted_relay ]
  ]
]

-- The match on the command's name.
unfoldable pub run_cmd : Env → Text → List Text → M (List Line)
run_cmd env w args =
    if w == text "h"
    then pure (help ∷ [])
    else if w == text "relay-servers" || w == text "rs"
    then cmd_relay_servers args
    else if w == text "ip-blocker" || w == text "ib"
    then cmd_ip_blocker args
    else if w == text "ip-changes" || w == text "ic"
    then cmd_ip_changes args
    else if w == text "punch-requests" || w == text "pr"
    then cmd_punch_requests args
    else if w == text "always-use-relay" || w == text "aur"
    then cmd_always_use_relay args
    else if w == text "test-geo" || w == text "tg"
    then cmd_test_geo env args
    else pure []

-- `check_cmd`.
unfoldable pub check_cmd : Env → Text → M (List Line)
check_cmd env cmd = elim (split b' ' (trim cmd)) [ [] ↦ pure [] | w ∷ args ↦ run_cmd env w args ]
