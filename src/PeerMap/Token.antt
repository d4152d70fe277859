-- ===== src/PeerMap/Token.antt =====
-- `validate_peer_token` of src/peer.rs.
use nat_server.Common.{Option, none, some, list_has_eq, ◌^◌}
use nat_server.Common.Int.{ℤ}
use nat_server.Common.Text.{Text, trim, parse_signed}
use nat_server.Net.{addr_has_eq}
use nat_server.Database.Statements.{resolve_peer_device_binding}
use nat_server.State.{Env, Sub, number, string, other_value, rejected, M, pure, fail, ◌>>=◌}

module _ (env : Env) where
  -- The user id in the claim `sub`.
  unfoldable pub user_of_sub : Option Sub → Option ℤ
  user_of_sub none = none
  user_of_sub (some (number n)) = n
  user_of_sub (some (string s)) = parse_signed (2 ^ 63) (trim s)
  user_of_sub (some other_value) = none

  -- `validate_peer_token`.
  unfoldable pub validate_peer_token : Text → Text → M (ℤ × ℤ)
  validate_peer_token token pk_peer_id = elim (env.jwt_decode token) [
    | none ↦ fail rejected
    | some claims ↦ elim (user_of_sub claims.sub) [
      | none ↦ fail rejected
      | some user_id ↦ do
        device_row_id ← resolve_peer_device_binding env user_id claims.udid pk_peer_id
        pure (user_id, device_row_id)
    ]
  ]
