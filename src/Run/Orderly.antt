-- ===== src/Run/Orderly.antt =====
-- Turns of the daemon on a database whose VLAN rows have the names of their IDs, and where no row is
-- replaced by another one of its name.
pub mod Total
mod Tests
use vland.Common.{
  ap, sym, ℕ, String, ◌<◌, ◌≡◌, ◌≢◌, ◌∙◌, ◌⊎◌, refl, Bool, true, false, ◌||◌, not, none, some, List,
  [], ◌∷◌, arith, ◌==◌, find, Nodes, All, All-map, ◌+◌, is_some, if◌then◌else◌, Bool-cases,
  Option-cases, inl, inr, eq_iff, str_eq, Unique, some_of,
}
use mathlib.Core.Path.{subst}
use vland.Idl.{Db, VlanRow, find_vlan}
use vland.External.{Env, BitmapLaws, LinkLaws}
use vland.State.{PortData, VlanData, State}
use vland.Vlan.{has_vlan_id}
use vland.Cache.{once, update_port_cache}
use vland.Cache.Mirror.{has_name, update_vlan_cache_lem}
use vland.Cache.Ports.{has_port, update_port_cache_lem}
use vland.Cache.Ports.Live.{IsLive}
use vland.Cache.Ports.Total.{update_port_cache_total}
use vland.Cache.Registry.{IsNamed, IsNamedRow, IsNamedRegistry}
use vland.Run.{
  Turn, update_caches, vland_reconfigure, vland_chk_for_system_configured, transact, locked_run,
  vland_run,
}
use vland.Run.Main.{vland_ovsdb_init}
use vland.Run.Mirror.{IsTidy, settled, settled-IsTidy, vland_run-IsTidy}
use vland.Run.Reach.{init-IsTidy}
use vland.Run.Registry.{taken, settled-caches, same-Registry, init-Registry, vland_run-Registry}

module _ (E : Env) (name_of : ℕ → String) where
  open E use {bitmaps}
  open bitmaps use {Bitmap}

  -- The row has the name of its ID, and an ID inside the bitmaps; where a VLAN of its name is cached,
  -- this VLAN was read from this very row.
  abbrev pub IsBatchRow : Nodes VlanData → VlanRow → Type 0
  IsBatchRow m r =
      IsNamedRow E name_of r × ((v : VlanData) → find r.name m ≡ some v → v.idl_cfg ≡ r.uuid)

  abbrev pub Batch : Db → Nodes VlanData → Type 0
  Batch db m = All (IsBatchRow m) db.vlans

  -- The states after any number of turns, each with such a batch.
  pub data Orderly (db : Db) : State Bitmap → Type 0 where
    start : Orderly db (vland_ovsdb_init E db)
    next :
        {s s' : State Bitmap} (t : Turn)
        → Orderly db s
        → Batch (taken E t s) s.all_vlans
        → vland_run E t s ≡ some s'
        → Orderly db s'

  Orderly-IsTidy : (L : LinkLaws E) {db : Db} {s : State Bitmap} → Orderly db s → IsTidy E s
  Orderly-IsTidy L {db} start = init-IsTidy E db
  Orderly-IsTidy L (next {s} {s'} t r b e) = vland_run-IsTidy E L t s s' (Orderly-IsTidy L r) e

  module _ (B : BitmapLaws bitmaps) (L : LinkLaws E) where
    -- In every state that the daemon reaches by turns with orderly batches, the bitmap of all VLANs holds
    -- exactly the IDs of the cached VLANs. There is one node to a name, the cached IDs are distinct and
    -- lie inside the bitmap, and each cached name is that of its ID. In an orderly batch every VLAN row
    -- has the name of its ID, an ID inside the bitmaps, and is the row that the cached VLAN of its name
    -- was read from, if there is one. The bitmap functions and the hash table keep their documented
    -- behaviour.
    pub Orderly-Registered :
        {db : Db} {s : State Bitmap} → Orderly db s → IsNamedRegistry E name_of s
    Orderly-Registered {db} start = init-Registry E B L name_of db
    Orderly-Registered (next {s} {s'} t r b e) =
        vland_run-Registry E B L name_of t s s' (All-map (λ row h. h.0) (taken E t s).vlans b)
          (Orderly-Registered r) e
