-- ===== src/Cli/Config/Range.antt =====
-- `vlan trunk allowed` with a range, against one command for each VLAN of it.
use mathlib.Core.Path.{subst}
use vland.Common.{
  ap, ◌∙◌, ℕ, String, ◌≡◌, ◌≢◌, refl, sym, true, false, Option, none, some, List, [], ◌∷◌, ◌++◌,
  ◌==◌, contains, map, All, arith, eq_iff, Option-cases, Bool-cases, inl, inr,
}
use vland.Cli.{
  PortRow, SystemRow, Tables, Vtysh, Session, go, ◌>>=◌, finish, write_port, is_vlan, is_not_native,
  add_trunk,
}
use vland.Cli.Laws.{VtyshLaws}
use vland.Cli.Vids.{All-append}
use vland.Cli.Intf.{find_interface, own_port}
use vland.Cli.Trunk.{is_internal, cli_intf_vlan_trunk_allowed, allow_vlan, allow_one, allow_all}
use vland.Cli.Own.{put_port-same}
use vland.Cli.Config.{vlan_trunk_allowed}
use vland.Cli.Config.Replay.{
  Ready, IsUsable, IsSamePort, AcceptsAll, apply_line, apply_lines, native_mode, after, replay,
  apply_line-IsSamePort,
}
use vland.Cli.Config.Steps.{replay-apply_lines, own, twice}
use vland.Cli.Config.Allowed.{
  HasNoRepeat, AreApart, AreApart-append, AcceptsAll-allowed, append_assoc, apply_lines-allowed,
}

module _ (X : Vtysh) (L : VtyshLaws X) (s : Session) (ifname : String) (db : Tables)
    (sys : SystemRow) (row : PortRow) (ready : Ready X s db ifname sys row) where
  -- One turn of the loop, on any tables.
  allow_one_step :
      (db' : Tables) (id : ℕ) (r : PortRow) (m : String) (found : Option PortRow)
      → own_port X db' ifname found ≡ go (db', some r)
      → (X.check_internal_vlan db' id == 0) ≡ false
      → is_internal sys id ≡ false
      → X.check_iface_in_bridge db' ifname ≡ true
      → is_vlan id db'.vlans ≡ true
      → r.vlan_mode ≡ some m
      → contains id r.vlan_trunks ≡ false
      → X.ops_port_set_trunks db'
          (r.vlan_trunks ++ (id ∷ []))
          (record r { vlan_mode = native_mode X r })
        ≡ record r { vlan_mode = native_mode X r; vlan_trunks = r.vlan_trunks ++ (id ∷ []) }
      → allow_one X s ifname sys id (record { db = db'; vlan_port_row = found; said = [] })
        ≡ go (record {
          db = write_port (apply_line X (vlan_trunk_allowed id) r) db';
          vlan_port_row = some (apply_line X (vlan_trunk_allowed id) r);
          said = [];
        })
  unfolding allow_one allow_vlan apply_line add_trunk
  allow_one_step db' id r m found o f out br v e new l = elim (Bool-cases (is_not_native X r)) [
    | inl n ↦ ground (arith, n, ready.txn)
    | inr n ↦ ground (arith, n, ready.txn)
  ]

  -- The same on the tables of a port, with what the command writes in the end.
  pub usable_step :
      (id : ℕ) (r : PortRow) (found : Option PortRow)
      → IsSamePort X row r
      → IsUsable X db sys row id
      → r.vlan_mode ≢ none
      → All (λ v. is_vlan v db.vlans ≡ true) r.vlan_trunks
      → contains id r.vlan_trunks ≡ false
      → allow_one X s ifname sys id
          (record { db = write_port r db; vlan_port_row = found; said = [] })
        ≡ go (record {
          db = write_port (apply_line X (vlan_trunk_allowed id) r) db;
          vlan_port_row = some (apply_line X (vlan_trunk_allowed id) r);
          said = [];
        })
  usable_step id r found h u set linked new =
      let r' = record r { vlan_mode = native_mode X r } in
      let r'' = apply_line X (vlan_trunk_allowed id) r in
      let e = L.set_trunks (write_port r db) (r.vlan_trunks ++ (id ∷ [])) r' in
      let ids =
        L.stored_trunks-is_vlan (write_port r db) (r.vlan_trunks ++ (id ∷ []))
          (All-append (λ v. is_vlan v db.vlans ≡ true) id r.vlan_trunks linked u.vlan) in
      let whole = twice X L s ifname db sys row ready r r'' (unfold apply_line in refl) in
      elim (Option-cases r.vlan_mode) [
        | inl n ↦ absurd (set n)
        | inr (m, q) ↦
            let step =
              allow_one_step (write_port r db) id r m found
                (own X L s ifname db sys row ready found r h) (u.free r h) u.outside
                (ready.bridged r h) u.vlan q new (ground (arith, e, ids)) in
            ground (arith, step, whole)
      ]

  -- The loop over a range of VLANs that are not yet allowed.
  allow_all_lem :
      (ids : List ℕ) (r : PortRow) (found : Option PortRow)
      → IsSamePort X row r
      → AcceptsAll X db sys row (map vlan_trunk_allowed ids) r
      → AreApart r.vlan_trunks ids
      → HasNoRepeat ids
      → allow_all X s ifname sys ids
          (record { db = write_port r db; vlan_port_row = found; said = [] })
        ≡ finish s [] (write_port (apply_lines X (map vlan_trunk_allowed ids) r) db)
  unfolding allow_all apply_lines
  allow_all_lem [] r found h a apart once = refl
  allow_all_lem (id ∷ ids) r found h ((u, set, linked), rest) apart once =
      let r'' = apply_line X (vlan_trunk_allowed id) r in
      let grown : r''.vlan_trunks ≡ r.vlan_trunks ++ (id ∷ []) =
        unfold apply_line in ground (arith, apart.0) in
      let apart' =
        subst (λ ws. AreApart ws ids) (sym grown)
          (AreApart-append r.vlan_trunks id ids apart.1 once.0) in
      let step = usable_step id r found h u set linked apart.0 in
      ap (λ x. x >>= allow_all X s ifname sys ids) step
      ∙ allow_all_lem ids r'' (some r'') (apply_line-IsSamePort X (vlan_trunk_allowed id) row r h)
          rest apart' once.1

  -- The row in the end: in a native mode, with the new VLANs behind the old ones.
  pub apply_lines-range :
      (ids : List ℕ)
      → ids ≢ []
      → AreApart row.vlan_trunks ids
      → HasNoRepeat ids
      → apply_lines X (map vlan_trunk_allowed ids) row
        ≡ record row { vlan_mode = native_mode X row; vlan_trunks = row.vlan_trunks ++ ids }
  unfolding apply_lines
  apply_lines-range [] ne apart once = absurd (ne refl)
  apply_lines-range (id ∷ ids) ne apart once =
      let ws = row.vlan_trunks ++ (id ∷ []) in
      let r = record row { vlan_mode = native_mode X row; vlan_trunks = ws } in
      let first : apply_line X (vlan_trunk_allowed id) row ≡ r =
        unfold apply_line in ground (arith, apart.0) in
      let is_native : is_not_native X r ≡ false = elim (Bool-cases (is_not_native X row)) [
        | inl n ↦ ground (arith, n, eq_iff X.mode_native_untagged X.mode_native_untagged)
        | inr n ↦ ground (arith, n)
      ] in
      ap (apply_lines X (map vlan_trunk_allowed ids)) first
      ∙ apply_lines-allowed X db sys row ids ws r is_native refl
          (AreApart-append row.vlan_trunks id ids apart.1 once.0) once.1
      ∙ ap (λ x. record r { vlan_trunks = x }) (append_assoc row.vlan_trunks id ids)

  -- `vlan trunk allowed` with a range of VLANs leaves the tables that one command for each VLAN of the
  -- range leaves, run one after the other: the interface's port is in a native mode and allows the
  -- VLANs of the range after those that it allowed before, and all else stays. The range is not empty;
  -- it has no VLAN twice and none that the port allows already; its VLANs are configured and not for
  -- internal use. The port has a mode, and its trunk VLANs refer to VLAN rows; it is the interface's
  -- only one, in a bridge, and each transaction goes through. The functions that the commands call
  -- keep their documented behaviour.
  pub cli_intf_vlan_trunk_allowed-replay :
      (ids : List ℕ)
      → ids ≢ []
      → All (IsUsable X db sys row) ids
      → AreApart row.vlan_trunks ids
      → HasNoRepeat ids
      → row.vlan_mode ≢ none
      → All (λ v. is_vlan v db.vlans ≡ true) row.vlan_trunks
      → (after s (cli_intf_vlan_trunk_allowed X s ifname db ids) db
          ≡ replay X s ifname (map vlan_trunk_allowed ids) db)
        × (after s (cli_intf_vlan_trunk_allowed X s ifname db ids) db
            ≡ some (
                write_port
                  (record row {
                    vlan_mode = native_mode X row;
                    vlan_trunks = row.vlan_trunks ++ ids;
                  })
                  db))
  unfolding cli_intf_vlan_trunk_allowed after
  cli_intf_vlan_trunk_allowed-replay [] ne us apart once set linked = absurd (ne refl)
  cli_intf_vlan_trunk_allowed-replay (id ∷ ids) ne us apart once set linked =
      let lines = map vlan_trunk_allowed (id ∷ ids) in
      let same : IsSamePort X row row = record {
        same_uuid = refl;
        same_name = refl;
        same_interfaces = refl;
      } in
      let accepted = AcceptsAll-allowed X db sys row (id ∷ ids) row us set linked in
      let still : write_port row db ≡ db =
        ap (λ ps. record db { ports = ps })
          (put_port-same (find_interface ifname db.interfaces) row db.ports ready.sole) in
      let looped = allow_all_lem (id ∷ ids) row none same accepted apart once in
      let whole : allow_all X s ifname sys (id ∷ ids)
            (record { db = db; vlan_port_row = none; said = [] })
          ≡ finish s [] (write_port (apply_lines X lines row) db) =
        subst
          (λ x.
            allow_all X s ifname sys (id ∷ ids) (record { db = x; vlan_port_row = none; said = [] })
            ≡ finish s [] (write_port (apply_lines X lines row) db))
          still looped in
      let one_by_one =
        subst (λ x. replay X s ifname lines x ≡ some (write_port (apply_lines X lines row) db))
          still (replay-apply_lines X L s ifname db sys row ready lines row same accepted) in
      let range : after s (cli_intf_vlan_trunk_allowed X s ifname db (id ∷ ids)) db
          ≡ some (write_port (apply_lines X lines row) db) =
        ground (arith, ready.system, ready.done, whole) in
      (
        range ∙ sym one_by_one,
        range ∙ ap (λ r. some (write_port r db)) (apply_lines-range (id ∷ ids) ne apart once),
      )
