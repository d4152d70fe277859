-- ===== src/PeerMap/Others.antt =====
-- On `get`, `get_or` and `update_pk` of src/peer.rs, at other ids than their own.
use nat_server.Common.{◌≡◌, refl, ◌∙◌, false, Option, none, some, arith, ◌==◌, list_has_eq}
use nat_server.Common.Map.{lookup, lookup-insert}
use nat_server.Common.Text.{Text, Bytes}
use nat_server.Net.{SocketAddr}
use nat_server.Database.Statements.{
  statement, db_get_peer, insert_peer_with_user, update_pk_with_user, resolve_peer_device_binding,
}
use nat_server.State.{Env, Server, Peer, M, ◌>>=◌, ◌>>◌, Result, after, ok, err, attempt}
use nat_server.PeerMap.{
  write_peer, get, get_or, trimmed, registered_peer, bind_user, store_peer, mark_online, update_pk,
  validate_peer_token,
}
use nat_server.PeerMap.Laws.{lookup-write_peer_ne}

-- The step leaves the peer of `j` as it is.
module _ {A : Type 0} (j : Text) where
  abbrev pub Spares : M A → Type 0
  Spares m = (s : Server) → lookup j (after m s).peers ≡ lookup j s.peers

  attempt-Spares :
      (m : M A) → Spares m → (s : Server) → lookup j (after (attempt m) s).peers ≡ lookup j s.peers
  attempt-Spares m h s = ground (arith, h s)

module _ {A B : Type 0} (j : Text) where
  bound-Spares :
      (f : A → M B) (s : Server) (o : Result A × Server)
      → ((a : A) → Spares j (f a))
      → lookup j o.1.peers ≡ lookup j s.peers
      → lookup j
          (elim o.0 as (λ _. Result B × Server) [ ok a ↦ f a o.1 | err e ↦ (err e, o.1) ]).1.peers
        ≡ lookup j s.peers
  bound-Spares f s (ok a, t) k h = k a t ∙ h
  bound-Spares f s (err e, t) k h = h

  pub bind-Spares :
      (m : M A) (f : A → M B) → Spares j m → ((a : A) → Spares j (f a)) → Spares j (m >>= f)
  bind-Spares m f h k s = bound-Spares f s (m s) k (h s)

  pub seq-Spares : (m : M A) (k : M B) → Spares j m → Spares j k → Spares j (m >> k)
  seq-Spares m k h l = bind-Spares m (λ _. k) h (λ _. l)

pub write_peer-Spares :
    (id j : Text) (f : Peer → Peer) → (id == j) ≡ false → Spares j (write_peer id f)
write_peer-Spares id j f ne s = lookup-write_peer_ne id j f s ne

db_get_peer-Spares : (env : Env) (id j : Text) → Spares j (db_get_peer env id)
unfolding db_get_peer statement
db_get_peer-Spares env id j s = ground arith

pub get-Spares : (env : Env) (id j : Text) → (id == j) ≡ false → Spares j (get env id)
unfolding get
get-Spares env id j ne s =
    let t = after (db_get_peer env id) s in
    grind (arith, db_get_peer-Spares env id j s, lookup-insert)

validate_peer_token-Spares :
    (env : Env) (token id j : Text) → Spares j (validate_peer_token env token id)
unfolding validate_peer_token resolve_peer_device_binding statement
validate_peer_token-Spares env token id j s = ground arith

pub get_or-Spares : (env : Env) (id j : Text) → (id == j) ≡ false → Spares j (get_or env id)
unfolding get_or
get_or-Spares env id j ne s = grind (arith, get-Spares env id j ne s, lookup-insert)

bind_user-Spares :
    (env : Env) (id j : Text) (token : Option Text)
    → (id == j) ≡ false
    → Spares j (bind_user env id token)
unfolding bind_user write_peer
bind_user-Spares env id j none ne s = refl
bind_user-Spares env id j (some token) ne s =
    grind (arith, validate_peer_token-Spares env token id j s, lookup-insert)

store_peer-Spares :
    (env : Env) (id j : Text) (uuid pk : Bytes)
    → (id == j) ≡ false
    → Spares j (store_peer env id uuid pk)
unfolding store_peer insert_peer_with_user update_pk_with_user statement write_peer
store_peer-Spares env id j uuid pk ne s = grind (arith, lookup-insert)

written-Spares :
    (env : Env) (id j : Text) (uuid pk : Bytes) (f : Peer → Peer)
    → (id == j) ≡ false
    → Spares j (write_peer id f >>= λ _. attempt (store_peer env id uuid pk))
written-Spares env id j uuid pk f ne =
    bind-Spares j (write_peer id f) (λ _. attempt (store_peer env id uuid pk))
      (write_peer-Spares id j f ne)
      (λ _. attempt-Spares j (store_peer env id uuid pk) (store_peer-Spares env id j uuid pk ne))

-- `update_pk` of one id leaves the peers of all other ids as they are, on every branch.
pub update_pk-Spares :
    (env : Env) (id j : Text) (addr : SocketAddr) (uuid pk : Bytes) (ip : Text)
    (token : Option Text)
    → (id == j) ≡ false
    → Spares j (update_pk env id addr uuid pk ip token)
unfolding update_pk mark_online
update_pk-Spares env id j addr uuid pk ip token ne s =
    let t = after (bind_user env id (trimmed token)) s in
    ground (
      arith,
      bind_user-Spares env id j (trimmed token) ne s,
      written-Spares env id j uuid pk (registered_peer addr uuid pk ip t.now) ne t,
    )
