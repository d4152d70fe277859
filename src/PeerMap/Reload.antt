-- ===== src/PeerMap/Reload.antt =====
-- On `get` of src/peer.rs, for a peer that is only in the table.
use nat_server.Common.{suc, list_has_eq, ◌≡◌, true, none, some, [], arith}
use nat_server.Common.Map.{lookup, insert}
use nat_server.Common.Text.{Text}
use nat_server.Database.{PeerRow, select_peer}
use nat_server.Database.Statements.{statement, db_get_peer}
use nat_server.State.{Env, Server, Peer, PeerInfo, ok}
use nat_server.PeerMap.{default_peer, peer_of_row, get}

-- The row as a peer whose address is empty.
unfoldable pub reloaded : Env → Server → PeerRow → Peer
unfolding default_peer
reloaded env s row = record (default_peer s.now) {
  guid = row.guid;
  uuid = row.uuid;
  pk = row.pk;
  user_id = row.user_id;
  device_id = row.device_id;
}

pub db_get_peer_stored :
    (env : Env) (id : Text) (s : Server) (row : PeerRow) (i : PeerInfo)
    → select_peer id s.db.peer ≡ some row
    → row.info ≡ env.info_to_json i
    → env.json_to_string (env.info_to_json i) ≡ none
    → env.db_ok s.calls ≡ true
    → db_get_peer env id s
      ≡ (ok (some (record row { info = [] })), record s { calls = suc s.calls })
unfolding db_get_peer statement
db_get_peer_stored env id s row i stored info no_string db = ground arith

-- `get` of a peer that is only in the table, when the statement succeeds: it comes into memory
-- with the row's guid, uuid, key, user and device, and with no address, since its column `info`, a
-- JSON object, is no JSON string and the empty text is no JSON.
pub get-reloaded :
    (env : Env) (id : Text) (s : Server) (row : PeerRow) (i : PeerInfo)
    → lookup id s.peers ≡ none
    → select_peer id s.db.peer ≡ some row
    → row.info ≡ env.info_to_json i
    → env.json_to_string (env.info_to_json i) ≡ none
    → env.json_to_info [] ≡ none
    → env.db_ok s.calls ≡ true
    → get env id s ≡ (
      ok (some (reloaded env s row)),
      record s { calls = suc s.calls; peers = insert id (reloaded env s row) s.peers },
    )
unfolding get peer_of_row reloaded default_peer
get-reloaded env id s row i absent stored info no_string no_info db =
    ground (arith, db_get_peer_stored env id s row i stored info no_string db)
