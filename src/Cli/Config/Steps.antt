-- ===== src/Cli/Config/Steps.antt =====
-- Each printed command, run at a port that is ready for it, does to the row what it is to do.
use vland.Common.{
  ℕ, String, ◌≡◌, ◌≢◌, refl, true, false, Option, none, some, List, [], ◌∷◌, ◌++◌, ◌==◌, contains,
  All, arith, Option-cases, Bool-cases, inl, inr,
}
use vland.Cli.{
  PortRow, SystemRow, Tables, Vtysh, Session, go, write_port, put_port, is_vlan, mode_eq,
  is_not_native, set_native, into_mode, add_trunk,
}
use vland.Cli.Laws.{VtyshLaws}
use vland.Cli.Edit.{set_access-eq}
use vland.Cli.Vids.{All-append}
use vland.Cli.Intf.{
  find_interface, own_port, cli_intf_vlan_access, cli_intf_vlan_trunk_native,
  cli_intf_vlan_trunk_native_tag,
}
use vland.Cli.Trunk.{is_internal, cli_intf_vlan_trunk_allowed, allow_vlan, allow_one, allow_all}
use vland.Cli.Own.{own_port-IsSole, put_port-IsSole, put_port-put_port}
use vland.Cli.Config.{
  Line, vlan_access, vlan_trunk_native, vlan_trunk_native_tag, vlan_trunk_allowed,
}
use vland.Cli.Config.Replay.{
  after, run_line, replay, native_mode, apply_line, apply_lines, IsSamePort, Ready, IsUsable,
  Accepts, AcceptsAll, apply_line-IsSamePort,
}

module _ (X : Vtysh) where
  open X use {mode_access, mode_native_tagged, mode_native_untagged}

  module _ (L : VtyshLaws X) (s : Session) (ifname : String) (db : Tables) (sys : SystemRow)
      (row : PortRow) (ready : Ready X s db ifname sys row) where
    -- The search for the port, at any stage of the replay.
    pub own :
        (found : Option PortRow) (r : PortRow)
        → IsSamePort X row r
        → own_port X (write_port r db) ifname found ≡ go (write_port r db, some r)
    own found r h =
        own_port-IsSole X db ifname r (put_port r db.ports) found
          (ground (arith, ready.has_interface, h.same_interfaces))
          (ground (arith, ready.named, h.same_name))
          (put_port-IsSole (find_interface ifname db.interfaces) row r db.ports h.same_uuid
            ready.sole)

    pub twice :
        (r r' : PortRow) → r'.uuid ≡ r.uuid → write_port r' (write_port r db) ≡ write_port r' db
    twice r r' e = rw (put_port-put_port r r' db.ports e) refl

    access_step :
        (id : ℕ) (r : PortRow)
        → IsSamePort X row r
        → IsUsable X db sys row id
        → after s (cli_intf_vlan_access X s (write_port r db) ifname id) (write_port r db)
          ≡ some (write_port (apply_line X (vlan_access id) r) db)
    unfolding after cli_intf_vlan_access apply_line
    access_step id r h u =
        let e = set_access-eq X L (write_port r db) id r in
        let tag = L.stored_tag-is_vlan (write_port r db) id u.vlan in
        let whole = twice r (apply_line X (vlan_access id) r) refl in
        ground (
          arith,
          own none r h,
          ready.txn,
          ready.done,
          u.vlan,
          u.free r h,
          ready.bridged r h,
          e,
          tag,
          whole,
        )

    native_step :
        (id : ℕ) (r : PortRow)
        → IsSamePort X row r
        → IsUsable X db sys row id
        → after s (cli_intf_vlan_trunk_native X s (write_port r db) ifname id) (write_port r db)
          ≡ some (write_port (apply_line X (vlan_trunk_native id) r) db)
    unfolding after cli_intf_vlan_trunk_native apply_line set_native into_mode
    native_step id r h u =
        let e = L.set_tag (write_port r db) id (into_mode X mode_native_untagged r) in
        let tag = L.stored_tag-is_vlan (write_port r db) id u.vlan in
        let whole = twice r (apply_line X (vlan_trunk_native id) r) refl in
        elim (Bool-cases (is_not_native X r)) [
          | inl b ↦ ground (
            arith,
            b,
            own none r h,
            ready.txn,
            ready.done,
            u.vlan,
            u.free r h,
            ready.bridged r h,
            e,
            tag,
            whole,
          )
          | inr b ↦ ground (
            arith,
            b,
            own none r h,
            ready.txn,
            ready.done,
            u.vlan,
            u.free r h,
            ready.bridged r h,
            e,
            tag,
            whole,
          )
        ]

    tag_step :
        (r : PortRow)
        → IsSamePort X row r
        → mode_eq r.vlan_mode mode_access ≡ false
        → after s (cli_intf_vlan_trunk_native_tag X s (write_port r db) ifname) (write_port r db)
          ≡ some (write_port (apply_line X vlan_trunk_native_tag r) db)
    unfolding after cli_intf_vlan_trunk_native_tag apply_line
    tag_step r h e =
        let whole = twice r (apply_line X vlan_trunk_native_tag r) refl in
        ground (arith, own none r h, ready.txn, ready.done, ready.bridged r h, e, whole)

    allow_all_step :
        (db' : Tables) (id : ℕ) (r : PortRow) (m : String)
        → own_port X db' ifname none ≡ go (db', some r)
        → (X.check_internal_vlan db' id == 0) ≡ false
        → is_internal sys id ≡ false
        → X.check_iface_in_bridge db' ifname ≡ true
        → is_vlan id db'.vlans ≡ true
        → r.vlan_mode ≡ some m
        → X.ops_port_set_trunks db'
            (r.vlan_trunks ++ (id ∷ []))
            (record r { vlan_mode = native_mode X r })
          ≡ record r { vlan_mode = native_mode X r; vlan_trunks = r.vlan_trunks ++ (id ∷ []) }
        → after s
            (allow_all X s ifname sys
              (id ∷ [])
              (record { db = db'; vlan_port_row = none; said = [] }))
            db'
          ≡ some (write_port (apply_line X (vlan_trunk_allowed id) r) db')
    unfolding after allow_all allow_one allow_vlan apply_line add_trunk
    allow_all_step db' id r m o f out br v e l = elim (Bool-cases (contains id r.vlan_trunks)) [
      | inl b ↦ elim (Bool-cases (is_not_native X r)) [
        | inl n ↦ ground (arith, b, n, ready.txn, ready.done)
        | inr n ↦ ground (arith, b, n, ready.txn, ready.done)
      ]
      | inr b ↦ elim (Bool-cases (is_not_native X r)) [
        | inl n ↦ ground (arith, b, n, ready.txn, ready.done)
        | inr n ↦ ground (arith, b, n, ready.txn, ready.done)
      ]
    ]

    allowed_step :
        (id : ℕ) (r : PortRow)
        → IsSamePort X row r
        → IsUsable X db sys row id
        → r.vlan_mode ≢ none
        → All (λ v. is_vlan v db.vlans ≡ true) r.vlan_trunks
        → after s
            (cli_intf_vlan_trunk_allowed X s ifname (write_port r db) (id ∷ []))
            (write_port r db)
          ≡ some (write_port (apply_line X (vlan_trunk_allowed id) r) db)
    unfolding cli_intf_vlan_trunk_allowed apply_line
    allowed_step id r h u set linked =
        let r' = record r { vlan_mode = native_mode X r } in
        let e = L.set_trunks (write_port r db) (r.vlan_trunks ++ (id ∷ [])) r' in
        let ids =
          L.stored_trunks-is_vlan (write_port r db) (r.vlan_trunks ++ (id ∷ []))
            (All-append (λ v. is_vlan v db.vlans ≡ true) id r.vlan_trunks linked u.vlan) in
        let whole = twice r (apply_line X (vlan_trunk_allowed id) r) refl in
        elim (Option-cases r.vlan_mode) [
          | inl n ↦ absurd (set n)
          | inr (m, q) ↦
              let step =
                allow_all_step (write_port r db) id r m (own none r h) (u.free r h) u.outside
                  (ready.bridged r h) u.vlan q (ground (arith, e, ids)) in
              ground (arith, ready.system, step, whole)
        ]

    run_line-apply_line :
        (line : Line) (r : PortRow)
        → IsSamePort X row r
        → Accepts X db sys row line r
        → after s (run_line X s ifname line (write_port r db)) (write_port r db)
          ≡ some (write_port (apply_line X line r) db)
    unfolding run_line
    run_line-apply_line (vlan_access id) r h a = access_step id r h a
    run_line-apply_line (vlan_trunk_native id) r h a = native_step id r h a
    run_line-apply_line vlan_trunk_native_tag r h a = tag_step r h a
    run_line-apply_line (vlan_trunk_allowed id) r h a = allowed_step id r h a.0 a.1 a.2
    run_line-apply_line _ r h a = absurd a

    pub replay-apply_lines :
        (lines : List Line) (r : PortRow)
        → IsSamePort X row r
        → AcceptsAll X db sys row lines r
        → replay X s ifname lines (write_port r db) ≡ some (write_port (apply_lines X lines r) db)
    unfolding replay apply_lines
    replay-apply_lines [] r h a = refl
    replay-apply_lines (line ∷ lines) r h a =
        let rest =
          replay-apply_lines lines (apply_line X line r) (apply_line-IsSamePort X line row r h)
            a.1 in
        ground (arith, run_line-apply_line line r h a.0, rest)
