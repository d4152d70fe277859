-- ===== src/Database/Statements.antt =====
-- The statements of src/database.rs that the rendezvous server runs, each through the pool.
use nat_server.Common.{suc, Option, none, some, [], ◌==◌, list_has_eq, if◌then◌else◌, unwrap_or}
use nat_server.Common.Int.{ℤ}
use nat_server.Common.Text.{Text, Bytes}
use nat_server.Net.{addr_has_eq}
use nat_server.Database.{
  PeerRow, Database, select_peer, insert_row, update_rows, device_of_row, row_of_device,
}
use nat_server.State.{Env, db_failed, rejected, ok, err, M, pure, fail, gets, ◌>>=◌}

module _ (env : Env) where
  -- A statement on the database, through the pool: it fails as the environment says.
  unfoldable pub statement : {A : Type 0} → (Database → A × Database) → M A
  statement f s =
      let t = record s { calls = suc s.calls } in
      if env.db_ok s.calls
      then (let (a, d) = f s.db in (ok a, record t { db = d }))
      else (err db_failed, t)

  -- `Database::get_peer`, which reads the column `info` as a JSON string.
  unfoldable pub db_get_peer : Text → M (Option PeerRow)
  unfolding statement
  db_get_peer id = statement λ d. (
    elim (select_peer id d.peer) [
      | none ↦ none
      | some r ↦ some (record r { info = unwrap_or (env.json_to_string r.info) [] })
    ],
    d,
  )

  -- `Database::insert_peer_with_user`.
  unfoldable pub insert_peer_with_user : Text → Bytes → Bytes → Text → Option ℤ → Option ℤ → M Bytes
  unfolding statement
  insert_peer_with_user id uuid pk info user_id device_id = do
    n ← gets (λ s. s.calls)
    let guid = env.new_guid n
    statement λ d. (
      guid,
      record d {
        peer =
            insert_row
              (record {
                guid = guid;
                id = id;
                uuid = uuid;
                pk = pk;
                info = info;
                user_id = user_id;
                device_id = device_id;
              })
              d.peer;
      },
    )

  -- `Database::update_pk_with_user`.
  unfoldable pub update_pk_with_user :
      Bytes → Text → Bytes → Text → Option ℤ → Option ℤ → M (Unit {0})
  unfolding statement
  update_pk_with_user guid id pk info user_id device_id =
      statement λ d. (tt, record d { peer = update_rows guid id pk info user_id device_id d.peer })

  -- `Database::resolve_peer_device_binding`.
  unfoldable pub resolve_peer_device_binding : ℤ → Option ℤ → Text → M ℤ
  unfolding statement
  resolve_peer_device_binding user_id (some udid) peer_id = do
    dev ← statement (λ d. (device_of_row udid user_id d.user_devices, d))
    elim dev [
      | none ↦ fail rejected
      | some device_id ↦ if device_id == peer_id then pure udid else fail rejected
    ]
  resolve_peer_device_binding user_id none peer_id = do
    row ← statement (λ d. (row_of_device user_id peer_id d.user_devices, d))
    elim row [ none ↦ fail rejected | some id ↦ pure id ]
