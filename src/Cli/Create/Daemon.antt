-- ===== src/Cli/Create/Daemon.antt =====
-- A VLAN that the command line has made or removed, and the daemon's next turn on the database.
use vland.Common.{
  ℕ, ◌==◌, eq_iff, not, ◌&&◌, none, Bool-cases, String, ◌≡◌, ◌≢◌, ◌⊎◌, true, false, ◌||◌, some,
  is_some, List, [], ◌∷◌, ◌++◌, find, str_eq, arith, Option-cases, inl, inr,
}
use mathlib.Core.Path.{subst}
use vland.Idl.{Db, VlanRow, find_vlan}
use vland.External.{Env, LinkLaws}
use vland.State.{State}
use vland.Vlan.{default_vid, has_vlan_id}
use vland.Run.{Turn, is_configured, vland_run}
use vland.Run.Reach.{Reachable, Reachable-Mirrors}
use vland.Cache.Mirror.{has_name}
use vland.Cli.{Tables, Vtysh, Session, Step, go, stop, fault}
use vland.Cli.Hoare.{Writes, Hands}
use vland.Cli.Laws.{VtyshLaws}
use vland.Cli.LagTrunks.{IsLinked}
use vland.Cli.Shutdown.{find_vlan_id}
use vland.Cli.Create.{
  VlanCalls, chosen_bridge, created, new_vlan_row, delete_vlan, vtysh_vlan, vtysh_no_vlan,
}
use vland.Cli.Create.Removal.{IsRemoved, vtysh_no_vlan_lem}
use vland.Cli.Create.RoundTrip.{HandsIn}

has_name-append :
    (k : String) (row : VlanRow) (rows : List VlanRow)
    → has_name k (rows ++ (row ∷ [])) ≡ (str_eq k row.name || has_name k rows)
has_name-append k row [] = ground arith
has_name-append k row (r ∷ rows) = ground (arith, has_name-append k row rows)

-- No two VLAN rows have one name, or one uuid.
abbrev pub IsDistinct : List VlanRow → Type 0
IsDistinct [] = Unit
IsDistinct (r ∷ rows) =
    (has_name r.name rows ≡ false) × (find_vlan r.uuid rows ≡ none) × IsDistinct rows

listed_row :
    (n : ℕ) (row : VlanRow) (rows : List VlanRow)
    → find_vlan_id n rows ≡ some row
    → (has_name row.name rows ≡ true) × (find_vlan row.uuid rows ≢ none)
unfolding find_vlan_id
listed_row n row [] e = cc
listed_row n row (r ∷ rows) e = elim (Bool-cases (r.id == n)) [
  | inl here ↦ let p : row ≡ r = ground (arith) in ground (arith, p, eq_iff r.name r.name)
  | inr later ↦ ground (arith, listed_row n row rows)
]

has_name-delete_vlan :
    (k : String) (n : ℕ) (row : VlanRow) (rows : List VlanRow)
    → IsDistinct rows
    → find_vlan_id n rows ≡ some row
    → has_name k (delete_vlan row.uuid rows) ≡ (has_name k rows && not (str_eq k row.name))
unfolding delete_vlan find_vlan_id
has_name-delete_vlan k n row [] d e = cc
has_name-delete_vlan k n row (r ∷ rows) d e = elim (Bool-cases (r.id == n)) [
  | inl here ↦ let p : row ≡ r = ground (arith) in ground (arith, p, d.0, eq_iff k r.name)
  | inr later ↦
      let e' : find_vlan_id n rows ≡ some row = ground (arith) in
      let (named, found) = listed_row n row rows e' in
      let apart : row.uuid ≢ r.uuid = λ q. found (rw q d.1) in
      let other : row.name ≢ r.name = λ q. ground (arith, named, d.0, q) in
      ground (
        arith,
        apart,
        other,
        has_name-delete_vlan k n row rows d.2 e',
        eq_iff k r.name,
        eq_iff k row.name,
      )
]

HandsIn-Writes :
    (P : Tables → Type 0) (m : Step Unit) (db' : Tables) → HandsIn db' m → Writes P m → P db'
HandsIn-Writes P (go a) db' h w = absurd h
HandsIn-Writes P (stop o) db' h w = subst (Hands P) h w
HandsIn-Writes P fault db' h w = absurd h

module _ (E : Env) (L : LinkLaws E) (X : Vtysh) (C : VlanCalls) where
  open E use {strings, bitmaps}
  open bitmaps use {Bitmap}

  -- The VLAN rows that `vlan <id>` hands in.
  vtysh_vlan-vlans :
      (u : Session) (db db' : Tables) (vlan_id : ℕ)
      → HandsIn db' (vtysh_vlan X strings C u db vlan_id)
      → db'.vlans ≡ db.vlans ++ (new_vlan_row X strings C vlan_id ∷ [])
  unfolding vtysh_vlan created
  vtysh_vlan-vlans u db db' vlan_id h = elim (Option-cases (find_vlan_id vlan_id db.vlans)) [
    | inr (row, e) ↦ ground (arith, e, h)
    | inl e ↦ elim (Option-cases (chosen_bridge strings.default_bridge_name db.bridges)) [
      | inl f ↦ ground (arith, e, f, h)
      | inr (b, f) ↦ ground (arith, e, f, h)
    ]
  ]

  -- The daemon's next turn with the lock caches a VLAN that `vlan <id>` has handed in, under the name
  -- that the command gave it, and with it exactly the VLANs of the names that there were before, if the
  -- turn does not fault. The turn receives the VLAN rows that the command handed in, in a database that
  -- has changed; the system is configured, and the default VLAN was seen before or is received. The
  -- daemon is in a state that it can reach, and the hash table keeps its documented behaviour.
  pub vtysh_vlan-vland_run :
      (u : Session) (db db' : Tables) (vlan_id : ℕ) (start : Db) (s s' : State Bitmap) (t : Turn)
      → HandsIn db' (vtysh_vlan X strings C u db vlan_id)
      → t.received.vlans ≡ db'.vlans
      → Reachable E start s
      → t.is_lock_contended ≡ false
      → t.has_lock ≡ true
      → (s.system_configured ≡ true) ⊎ (is_configured t.received.system ≡ true)
      → (s.default_vlan_created ≡ true) ⊎ (has_vlan_id default_vid t.received.vlans ≡ true)
      → t.received.seqno ≢ s.idl_seqno
      → vland_run E t s ≡ some s'
      → (k : String)
      → is_some (find k s'.all_vlans) ≡ (str_eq k (C.vlan_name vlan_id) || has_name k db.vlans)
  unfolding new_vlan_row
  vtysh_vlan-vland_run u db db' vlan_id start s s' t h rows r free held c d ne e k =
      let mirrors = (Reachable-Mirrors E L start s s' t r free held c d ne e).0 in
      let row = new_vlan_row X strings C vlan_id in
      let handed = vtysh_vlan-vlans u db db' vlan_id h in
      ground (arith, mirrors.vlans k, rows, handed, has_name-append k row db.vlans)

  -- The daemon's next turn with the lock drops a VLAN that `no vlan <id>` has removed, and keeps exactly
  -- the other VLANs, if the turn does not fault. No two VLAN rows have one name or one uuid, and the
  -- trunk VLANs of all ports refer to VLAN rows. The turn receives the VLAN rows that the command handed
  -- in, in a database that has changed; the system is configured, and the default VLAN was seen before or
  -- is received. The daemon is in a state that it can reach, and the hash table and the functions that
  -- the command calls keep their documented behaviour.
  pub vtysh_no_vlan-vland_run :
      (K : VtyshLaws X) (u : Session) (db db' : Tables) (vlan_id : ℕ) (row : VlanRow) (start : Db)
      (s s' : State Bitmap) (t : Turn)
      → IsLinked db
      → IsDistinct db.vlans
      → find_vlan_id vlan_id db.vlans ≡ some row
      → HandsIn db' (vtysh_no_vlan X strings C u db vlan_id)
      → t.received.vlans ≡ db'.vlans
      → Reachable E start s
      → t.is_lock_contended ≡ false
      → t.has_lock ≡ true
      → (s.system_configured ≡ true) ⊎ (is_configured t.received.system ≡ true)
      → (s.default_vlan_created ≡ true) ⊎ (has_vlan_id default_vid t.received.vlans ≡ true)
      → t.received.seqno ≢ s.idl_seqno
      → vland_run E t s ≡ some s'
      → (k : String)
      → is_some (find k s'.all_vlans) ≡ (has_name k db.vlans && not (str_eq k row.name))
  vtysh_no_vlan-vland_run K u db db' vlan_id row start s s' t linked d f h rows r free held c e ne g
        k =
      let mirrors = (Reachable-Mirrors E L start s s' t r free held c e ne g).0 in
      let removed =
        HandsIn-Writes (IsRemoved X strings C K vlan_id db) (vtysh_no_vlan X strings C u db vlan_id)
          db' h (vtysh_no_vlan_lem X strings C K vlan_id u db linked) in
      let same : removed.row ≡ row = ground (arith, removed.found, f) in
      ground (
        arith,
        mirrors.vlans k,
        rows,
        removed.vlans,
        same,
        has_name-delete_vlan k vlan_id row db.vlans d f,
      )
