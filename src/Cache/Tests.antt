-- ===== src/Cache/Tests.antt =====
-- The caches at a concrete state.
use vland.Common.{ℕ, String, ◌≡◌, refl, Bool, none, some, [], ◌∷◌, find, is_some, Unique}
use vland.Idl.{find_vlan}
use vland.State.{VlanData, State}
use vland.Samples.{env, env-laws, running, db, access_port, vlan, vlan_row, daemon_code}
use vland.Cache.{del_old_port, update_port_cache, update_vlan_cache}
use vland.Cache.Ports.{PortsMirrored, update_port_cache_lem}
use vland.Cache.Mirror.{has_name, update_vlan_cache_lem}
use vland.Cache.Stale.{update_vlan_cache_stale}
use vland.Cache.Dangling.{del_old_port_dangling}

update_vlan_cache_lem_example :
    (t : State (ℕ → Bool)) × (n : ℕ) × (update_vlan_cache env running ≡ some (t, n))
    × Unique t.all_vlans
    × ((k : String) → is_some (find k t.all_vlans) ≡ has_name k db.vlans)
update_vlan_cache_lem_example = update_vlan_cache_lem env env-laws running (refl, tt)

-- The row of VLAN 10 is gone, and the VLAN is cached still.
abbrev stale : State (ℕ → Bool)
stale = record running { idl = record db { vlans = [] } }

del_old_port_dangling_example : del_old_port env "1" stale ≡ none
unfolding daemon_code
del_old_port_dangling_example =
    del_old_port_dangling env "1" stale access_port 10 [] "VLAN10" vlan refl refl refl refl

-- What the port cache makes of the database at the same state.
abbrev mirrored : State (ℕ → Bool)
unfolding daemon_code
mirrored = elim (update_port_cache env running) [ none ↦ running | some (s, n) ↦ s ]

abbrev written : ℕ
unfolding daemon_code
written = elim (update_port_cache env running) [ none ↦ 0 | some (s, n) ↦ n ]

update_port_cache_lem_example : PortsMirrored env running mirrored
unfolding daemon_code
update_port_cache_lem_example =
    update_port_cache_lem env env-laws running mirrored written (refl, tt) refl

-- The row of VLAN 10 has been replaced by another one of its name.
abbrev replaced : State (ℕ → Bool)
replaced = record running { idl = record db { vlans = record vlan_row { uuid = 11 } ∷ [] } }

abbrev after : State (ℕ → Bool)
unfolding daemon_code
after = elim (update_vlan_cache env replaced) [ none ↦ running | some (s, n) ↦ s ]

abbrev changes : ℕ
unfolding daemon_code
changes = elim (update_vlan_cache env replaced) [ none ↦ 0 | some (s, n) ↦ n ]

update_vlan_cache_stale_example :
    (w : VlanData) × (find "VLAN10" after.all_vlans ≡ some w)
    × (w.vid ≡ 10)
    × (w.idl_cfg ≡ 10)
    × (find_vlan w.idl_cfg after.idl.vlans ≡ none)
unfolding daemon_code
update_vlan_cache_stale_example =
    update_vlan_cache_stale env env-laws replaced after changes "VLAN10" vlan (refl, tt) refl refl
      refl refl
