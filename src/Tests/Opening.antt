-- ===== src/Tests/Opening.antt =====
-- The host opens a channel; the chain creates the account `bob` for it.
use cw_ibc_demo.Prelude.{
  String, ◌≡◌, refl, ◌==◌, if◌then◌else◌, Option, none, some, false, [], ◌∷◌, ok, commit, lookup,
}
use cw_ibc_demo.Std.{Addr, Binary, success}
use cw_ibc_demo.Platform.Demo.{demo}
use cw_ibc_demo.Platform.Demo.Texts.{name, unname}
use cw_ibc_demo.Platform.Demo.Calls.{put_init}
use cw_ibc_demo.Host.Msg.{Config}
use cw_ibc_demo.Host.State as host
use cw_ibc_demo.Host.Contract.{ibc_channel_connect, reply, reply_init_callback, init_callback_id}
use cw_ibc_demo.Protocol.Runtime.{Chain, settle}
use cw_ibc_demo.Protocol.Runtime.Opening.{creation, open_channel, open_channel-registers}
use cw_ibc_demo.Tests.World.{now, deps, channel, of_host}

abbrev creates_bob : Chain
creates_bob m = ok (some (10 ∷ []))

abbrev opened : host.State demo
opened = commit (open_channel demo deps creates_bob now (channel "channel-1")) of_host

open_channel-registers_example :
    (cfg : Config) × (init : Binary) × (out : Option Binary) × (raw : String) × (account : Addr)
    × (demo.item_get of_host.config ≡ some cfg)
    × (demo.cw1_init.from_slice init ≡ ok (record { admins = "host" ∷ []; mutable = false }))
    × (creates_bob (creation cfg "channel-1" init) ≡ ok out)
    × (demo.parse_reply_instantiate_data (record { id = init_callback_id; result = success out })
        ≡ ok raw)
    × (deps.addr_validate raw ≡ ok account)
    × (demo.get of_host.accounts "channel-1" ≡ none)
    × (demo.item_get opened.pending ≡ none)
    × ((j : String)
        → demo.get opened.accounts j
          ≡ (if "channel-1" == j then some account else demo.get of_host.accounts j))
unfolding open_channel settle ibc_channel_connect reply reply_init_callback put_init name unname
    lookup
open_channel-registers_example =
    open_channel-registers demo deps creates_bob now (channel "channel-1") of_host [] refl
