-- ===== src/Cli/Config/RoundTrip.antt =====
-- What comes back of a port's VLAN columns when its printed commands are put in again.
use mathlib.Core.Path.{subst}
use vland.Common.{
  ap, ◌∙◌, ℕ, String, ◌≡◌, ◌≢◌, ◌⊎◌, refl, sym, true, false, none, some, List, [], ◌∷◌, map, All,
  arith, eq_iff, inl, inr,
}
use vland.Cli.{
  PortRow, SystemRow, Tables, Vtysh, Session, write_port, is_vlan, mode_eq, is_not_native,
}
use vland.Cli.Laws.{VtyshLaws}
use vland.Cli.Intf.{find_interface}
use vland.Cli.Own.{put_port-same}
use vland.Cli.Config.{
  Line, vlan_access, vlan_trunk_native, vlan_trunk_native_tag, vlan_trunk_allowed, port_lines,
}
use vland.Cli.Config.Replay.{
  Ready, IsUsable, IsSamePort, AcceptsAll, apply_line, apply_lines, replay,
}
use vland.Cli.Config.Steps.{replay-apply_lines}
use vland.Cli.Config.Lines.{lines-access, lines-untagged, lines-tagged, lines-trunk}
use vland.Cli.Config.Allowed.{
  HasNoRepeat, AreApart-append, AreApart-nil, apply_lines-allowed, AcceptsAll-allowed,
}

module _ (X : Vtysh) (db : Tables) (sys : SystemRow) (row : PortRow) where
  -- `row`, with the VLAN columns of another row.
  abbrev pub restored : PortRow → PortRow
  restored kept = record row {
    vlan_mode = kept.vlan_mode;
    vlan_tag = kept.vlan_tag;
    vlan_trunks = kept.vlan_trunks;
  }

  -- An access port without trunks, or a port in a native mode.
  abbrev pub IsRestorable : PortRow → Type 0
  IsRestorable kept =
      ((kept.vlan_mode ≡ some X.mode_access) × (kept.vlan_trunks ≡ []))
      ⊎ ((kept.vlan_mode ≡ some X.mode_native_untagged)
          ⊎ (kept.vlan_mode ≡ some X.mode_native_tagged))

  module _ (L : VtyshLaws X) (s : Session) (ifname : String)
      (ready : Ready X s db ifname sys row) where
    -- Lines that are accepted from the row on, and what they make of it.
    replayed :
        (lines : List Line) (r : PortRow)
        → AcceptsAll X db sys row lines row
        → apply_lines X lines row ≡ r
        → replay X s ifname lines db ≡ some (write_port r db)
    replayed lines r a e =
        let same : IsSamePort X row row = record {
          same_uuid = refl;
          same_name = refl;
          same_interfaces = refl;
        } in
        let still : write_port row db ≡ db =
          ap (λ ps. record db { ports = ps })
            (put_port-same (find_interface ifname db.interfaces) row db.ports ready.sole) in
        ground (arith, replay-apply_lines X L s ifname db sys row ready lines row same a, e, still)

    abbrev native : ℕ → PortRow
    native v = record row { vlan_mode = some X.mode_native_untagged; vlan_tag = some v }

    apply-native :
        (v : ℕ) → is_not_native X row ≡ true → apply_line X (vlan_trunk_native v) row ≡ native v
    unfolding apply_line
    apply-native v n = ground (arith, n)

    tagged :
        (v : ℕ)
        → is_not_native X row ≡ true
        → apply_line X vlan_trunk_native_tag (apply_line X (vlan_trunk_native v) row)
          ≡ record (native v) { vlan_mode = some X.mode_native_tagged }
    unfolding apply_line
    tagged v n = refl

    restored_access :
        (kept : PortRow) (v : ℕ)
        → kept.vlan_mode ≡ some X.mode_access
        → kept.vlan_trunks ≡ []
        → kept.vlan_tag ≡ some v
        → IsUsable X db sys row v
        → replay X s ifname (port_lines X kept) db ≡ some (write_port (restored kept) db)
    unfolding apply_lines apply_line
    restored_access kept v m ts t u =
        let whole : apply_lines X (vlan_access v ∷ []) row ≡ restored kept =
          ground (arith, m, ts, t) in
        rw (lines-access X kept v m t) (replayed (vlan_access v ∷ []) (restored kept) (u, tt) whole)

    -- The VLANs of the trunks, allowed at a row in a native mode without trunks.
    apply_lines-trunks :
        (vs : List ℕ) (r : PortRow)
        → is_not_native X r ≡ false
        → r.vlan_trunks ≡ []
        → HasNoRepeat vs
        → apply_lines X (map vlan_trunk_allowed vs) r ≡ record r { vlan_trunks = vs }
    apply_lines-trunks vs r n e once =
        apply_lines-allowed X db sys row vs [] r n e (AreApart-nil vs) once

    AcceptsAll-trunks :
        (vs : List ℕ) (r : PortRow)
        → All (IsUsable X db sys row) vs
        → r.vlan_mode ≢ none
        → r.vlan_trunks ≡ []
        → AcceptsAll X db sys row (map vlan_trunk_allowed vs) r
    AcceptsAll-trunks vs r us set e =
        AcceptsAll-allowed X db sys row vs r us set
          (subst (λ ws. All (λ v. is_vlan v db.vlans ≡ true) ws) (sym e) tt)

    restored_untagged :
        (kept : PortRow) (v : ℕ)
        → is_not_native X row ≡ true
        → row.vlan_trunks ≡ []
        → kept.vlan_mode ≡ some X.mode_native_untagged
        → kept.vlan_tag ≡ some v
        → IsUsable X db sys row v
        → All (IsUsable X db sys row) kept.vlan_trunks
        → HasNoRepeat kept.vlan_trunks
        → replay X s ifname (port_lines X kept) db ≡ some (write_port (restored kept) db)
    unfolding apply_lines
    restored_untagged kept v n empty m t u us once =
        let vs = kept.vlan_trunks in
        let r = apply_line X (vlan_trunk_native v) row in
        let e = apply-native v n in
        let is_native : is_not_native X r ≡ false =
          ground (arith, e, eq_iff X.mode_native_untagged X.mode_native_untagged) in
        let bare : r.vlan_trunks ≡ [] = ground (arith, e) in
        let set : r.vlan_mode ≢ none = ground (arith, e) in
        let whole = apply_lines-trunks vs r is_native bare once in
        let same : record r { vlan_trunks = vs } ≡ restored kept = ground (arith, e, m, t) in
        rw (lines-untagged X L kept v m t) (
          replayed (vlan_trunk_native v ∷ map vlan_trunk_allowed vs) (restored kept)
            (u, AcceptsAll-trunks vs r us set bare) (whole ∙ same))

    restored_tagged :
        (kept : PortRow) (v : ℕ)
        → is_not_native X row ≡ true
        → row.vlan_trunks ≡ []
        → kept.vlan_mode ≡ some X.mode_native_tagged
        → kept.vlan_tag ≡ some v
        → IsUsable X db sys row v
        → All (IsUsable X db sys row) kept.vlan_trunks
        → HasNoRepeat kept.vlan_trunks
        → replay X s ifname (port_lines X kept) db ≡ some (write_port (restored kept) db)
    unfolding apply_lines
    restored_tagged kept v n empty m t u us once =
        let vs = kept.vlan_trunks in
        let r = apply_line X vlan_trunk_native_tag (apply_line X (vlan_trunk_native v) row) in
        let e : r ≡ record (native v) { vlan_mode = some X.mode_native_tagged } = tagged v n in
        let is_native : is_not_native X r ≡ false =
          ground (arith, e, eq_iff X.mode_native_tagged X.mode_native_tagged) in
        let bare : r.vlan_trunks ≡ [] = ground (arith, e) in
        let set : r.vlan_mode ≢ none = ground (arith, e) in
        let whole = apply_lines-trunks vs r is_native bare once in
        let same : record r { vlan_trunks = vs } ≡ restored kept = ground (arith, e, m, t) in
        let other : mode_eq (apply_line X (vlan_trunk_native v) row).vlan_mode X.mode_access
            ≡ false =
          ground (
            arith,
            apply-native v n,
            eq_iff X.mode_native_untagged X.mode_access,
            L.access_untagged,
          ) in
        rw (lines-tagged X L kept v m t) (
          replayed (vlan_trunk_native v ∷ vlan_trunk_native_tag ∷ map vlan_trunk_allowed vs)
            (restored kept) (u, (other, AcceptsAll-trunks vs r us set bare)) (whole ∙ same))

    -- The commands that `show running-config` prints for a port, put in again one by one at the
    -- interface's port, restore its mode, its tag and its trunks, in their order, and change nothing
    -- else. The printed port is an access port without trunks or a port in a native mode; it has a tag,
    -- no VLAN stands in its trunks twice, and its VLANs are configured and not for internal use. The
    -- port that takes the commands is the interface's only one, in a bridge, in no native mode and
    -- without trunks; each transaction goes through. The functions that the commands call keep their
    -- documented behaviour.
    pub replay-port_lines :
        (kept : PortRow) (v : ℕ)
        → IsRestorable kept
        → kept.vlan_tag ≡ some v
        → HasNoRepeat kept.vlan_trunks
        → IsUsable X db sys row v
        → All (IsUsable X db sys row) kept.vlan_trunks
        → is_not_native X row ≡ true
        → row.vlan_trunks ≡ []
        → replay X s ifname (port_lines X kept) db ≡ some (write_port (restored kept) db)
    replay-port_lines kept v (inl (m, e)) t once u us n empty = restored_access kept v m e t u
    replay-port_lines kept v (inr (inl m)) t once u us n empty =
        restored_untagged kept v n empty m t u us once
    replay-port_lines kept v (inr (inr m)) t once u us n empty =
        restored_tagged kept v n empty m t u us once

    apply_lines-fresh :
        (vs : List ℕ)
        → vs ≢ []
        → HasNoRepeat vs
        → is_not_native X row ≡ true
        → row.vlan_trunks ≡ []
        → apply_lines X (map vlan_trunk_allowed vs) row
          ≡ record row { vlan_mode = some X.mode_native_untagged; vlan_trunks = vs }
    unfolding apply_lines
    apply_lines-fresh [] ne once n empty = absurd (ne refl)
    apply_lines-fresh (v ∷ vs) ne once n empty =
        let r = record row { vlan_mode = some X.mode_native_untagged; vlan_trunks = v ∷ [] } in
        let first : apply_line X (vlan_trunk_allowed v) row ≡ r =
          unfold apply_line in ground (arith, n, empty) in
        let is_native : is_not_native X r ≡ false =
          ground (arith, eq_iff X.mode_native_untagged X.mode_native_untagged) in
        let apart = AreApart-append [] v vs (AreApart-nil vs) once.0 in
        ap (apply_lines X (map vlan_trunk_allowed vs)) first
        ∙ apply_lines-allowed X db sys row vs (v ∷ []) r is_native refl apart once.1

    -- A port in trunk mode does not come back: the commands printed for it leave the port that takes
    -- them in mode native-untagged, with the tag that it had before. The printed port allows a VLAN, no
    -- VLAN twice, and its VLANs are configured and not for internal use. The port that takes the
    -- commands has a mode, and otherwise it and the transactions are as for the other modes.
    pub replay-port_lines-trunk :
        (kept : PortRow)
        → kept.vlan_mode ≡ some X.mode_trunk
        → kept.vlan_trunks ≢ []
        → HasNoRepeat kept.vlan_trunks
        → All (IsUsable X db sys row) kept.vlan_trunks
        → is_not_native X row ≡ true
        → row.vlan_mode ≢ none
        → row.vlan_trunks ≡ []
        → (replay X s ifname (port_lines X kept) db
            ≡ some (
                write_port
                  (record (restored kept) {
                    vlan_mode = some X.mode_native_untagged;
                    vlan_tag = row.vlan_tag;
                  })
                  db))
          × (X.mode_native_untagged ≢ X.mode_trunk)
    replay-port_lines-trunk kept m some_vlan once us n set empty =
        let vs = kept.vlan_trunks in
        let linked = subst (λ ws. All (λ v. is_vlan v db.vlans ≡ true) ws) (sym empty) tt in
        (
          rw (lines-trunk X L kept m) (
              replayed (map vlan_trunk_allowed vs) _
                (AcceptsAll-allowed X db sys row vs row us set linked)
                (apply_lines-fresh vs some_vlan once n empty)),
          λ e. L.trunk_untagged (sym e),
        )
