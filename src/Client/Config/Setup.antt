-- ===== src/Client/Config/Setup.antt =====
-- On `ClientConfig::init` of nat-client/src/config.rs.
use nat_server.Common.{false, none, ◌≡◌, arith, is_empty}
use nat_server.Client.Config.{ClientConfig, Fresh, Overrides, init}

abbrev pub no_overrides : Overrides
no_overrides = record {
  rendezvous_servers = none;
  relay_server = none;
  id = none;
  ipc_port = none;
  rendezvous_wire = none;
}

-- What `init` makes is not empty.
pub record IsMade (f : Fresh) : Type 0 where
  pub id : is_empty f.id ≡ false
  pub uuid : is_empty f.uuid ≡ false
  pub sk : is_empty f.sk ≡ false
  pub pk : is_empty f.pk ≡ false

-- Once the settings were set up, with whatever overrides, a start without overrides keeps them as they are:
-- the id, the uuid, the keys and their confirmation among them.
pub init-init :
    (f f' : Fresh) (o : Overrides) (c : ClientConfig)
    → IsMade f
    → init f' no_overrides (init f o c) ≡ init f o c
unfolding init
init-init f f' o c h = ground (arith, h.id, h.uuid, h.sk, h.pk)
