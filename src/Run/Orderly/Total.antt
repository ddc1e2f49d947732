-- ===== src/Run/Orderly/Total.antt =====
-- A turn faults only where a cached port and a cached VLAN go together.
use vland.Common.{
  ap, sym, ℕ, String, ◌≡◌, ◌≢◌, ◌∙◌, ◌⊎◌, true, ◌||◌, not, none, some, List, [], ◌∷◌, arith, ◌==◌,
  find, Nodes, All, ◌+◌, is_some, if◌then◌else◌, Bool-cases, inl, inr, eq_iff, str_eq,
}
use mathlib.Core.Path.{subst}
use vland.Idl.{Db, VlanRow, find_vlan}
use vland.External.{Env, BitmapLaws, LinkLaws}
use vland.State.{PortData, VlanData, State}
use vland.Vlan.{has_vlan_id}
use vland.Cache.{once, update_port_cache}
use vland.Cache.Mirror.{has_name, update_vlan_cache_lem}
use vland.Cache.Ports.{has_port, update_port_cache_lem}
use vland.Cache.Ports.Live.{IsLive}
use vland.Cache.Ports.Total.{update_port_cache_total}
use vland.Cache.Registry.{IsNamedRegistry}
use vland.Run.{
  Turn, update_caches, vland_reconfigure, vland_chk_for_system_configured, transact, locked_run,
  vland_run,
}
use vland.Run.Mirror.{IsTidy, settled, settled-IsTidy}
use vland.Run.Registry.{taken, settled-caches, same-Registry}
use vland.Run.Orderly.{IsBatchRow, Batch, Orderly, Orderly-IsTidy, Orderly-Registered}

-- A row that a test on the table finds.
row_of_id :
    (P : VlanRow → Type 0) (n : ℕ) (rows : List VlanRow)
    → All P rows
    → has_vlan_id n rows ≡ true
    → (r : VlanRow) × (r.id ≡ n) × P r × (find_vlan r.uuid rows ≢ none)
unfolding has_vlan_id
row_of_id P n [] p e = cc
row_of_id P n (r ∷ rows) p e = elim (Bool-cases (r.id == n)) [
  | inl here ↦ (r, ground (arith), p.0, ground (arith))
  | inr later ↦
      let (x, a, b, c) = row_of_id P n rows p.1 (ground (arith)) in (x, a, b, ground (arith, c))
]

row_of_name :
    (P : VlanRow → Type 0) (k : String) (rows : List VlanRow)
    → All P rows
    → has_name k rows ≡ true
    → (r : VlanRow) × (r.name ≡ k) × P r × (find_vlan r.uuid rows ≢ none)
row_of_name P k [] p e = cc
row_of_name P k (r ∷ rows) p e = elim (Bool-cases (str_eq k r.name)) [
  | inl here ↦ (r, ground (arith, eq_iff k r.name), p.0, ground (arith))
  | inr later ↦
      let (x, a, b, c) = row_of_name P k rows p.1 (ground (arith)) in (x, a, b, ground (arith, c))
]

ids_listed :
    (all rows : List VlanRow)
    → ((n : ℕ) → has_vlan_id n rows ≡ true → has_vlan_id n all ≡ true)
    → All (λ (r : VlanRow). has_vlan_id r.id all ≡ true) rows
unfolding has_vlan_id
ids_listed all [] h = tt
ids_listed all (r ∷ rows) h =
    (h r.id (ground (arith)), ids_listed all rows (λ n e. h n (ground (arith))))

any_rows : (rows : List VlanRow) → All (λ (r : VlanRow). Unit {0}) rows
any_rows [] = tt
any_rows (r ∷ rows) = (tt, any_rows rows)

module _ (E : Env) (name_of : ℕ → String) where
  open E use {bitmaps}
  open bitmaps use {Bitmap}

  -- A row of a batch that was found, and the cached VLAN of its name.
  live_row :
      (s : State Bitmap) (rows : List VlanRow) (k : String) (v : VlanData) (r : VlanRow)
      → ((w : VlanData) → find r.name s.all_vlans ≡ some w → w.idl_cfg ≡ r.uuid)
      → find k s.all_vlans ≡ some v
      → r.name ≡ k
      → find_vlan r.uuid rows ≢ none
      → find_vlan v.idl_cfg rows ≢ none
  live_row s rows k v r same f e found =
      let g : find r.name s.all_vlans ≡ some v = rw e f in rw (same v g) found

  abbrev HasId : List VlanRow → ℕ → Type 0
  HasId rows n = has_vlan_id n rows ≡ true

  Batch-IsLive :
      (s : State Bitmap)
      → IsNamedRegistry E name_of s
      → Batch E name_of s.idl s.all_vlans
      → IsLive E (HasId s.idl.vlans) s
  Batch-IsLive s (reg, h) b =
      let rows = s.idl.vlans in
      record {
        unique = reg.unique;
        covers = ids_listed rows rows (λ n e. e);
        live = λ k v f c.
            let (r, id, both, found) =
              row_of_id (IsBatchRow E name_of s.all_vlans) v.vid rows b c in
            live_row s rows k v r both.1 f (both.0.0 ∙ ap name_of id ∙ sym (h k v f)) found;
      }

  VlansStay-IsLive :
      (s : State Bitmap)
      → IsNamedRegistry E name_of s
      → Batch E name_of s.idl s.all_vlans
      → ((k : String) → is_some (find k s.all_vlans) ≡ true → has_name k s.idl.vlans ≡ true)
      → IsLive E (λ n. Unit) s
  VlansStay-IsLive s (reg, h) b stays =
      let rows = s.idl.vlans in
      record {
        unique = reg.unique;
        covers = any_rows rows;
        live = λ k v f c.
            let (r, name, both, found) =
              row_of_name (IsBatchRow E name_of s.all_vlans) k rows b
                (stays k (ground (arith, f))) in
            live_row s rows k v r both.1 f name found;
      }

  -- Every cached port, and every cached VLAN, has a row of its name.
  abbrev pub PortsStay : Db → Nodes (PortData Bitmap) → Type 0
  PortsStay db m = (k : String) → is_some (find k m) ≡ true → has_port k db.ports ≡ true

  abbrev pub VlansStay : Db → Nodes VlanData → Type 0
  VlansStay db m = (k : String) → is_some (find k m) ≡ true → has_name k db.vlans ≡ true

  module _ (B : BitmapLaws bitmaps) (L : LinkLaws E) where
    update_ports_total :
        (s : State Bitmap)
        → IsTidy E s
        → IsNamedRegistry E name_of s
        → Batch E name_of s.idl s.all_vlans
        → PortsStay s.idl s.all_ports ⊎ VlansStay s.idl s.all_vlans
        → (t : State Bitmap) × (n : ℕ) × (update_port_cache E s ≡ some (t, n))
    update_ports_total s tidy reg b (inl p) =
        update_port_cache_total E (HasId s.idl.vlans) L s tidy.ports (Batch-IsLive s reg b)
          (λ k h. inl (p k h))
    update_ports_total s tidy reg b (inr v) =
        update_port_cache_total E (λ n. Unit) L s tidy.ports (VlansStay-IsLive s reg b v)
          (λ k h. inr (λ n. tt))

    update_caches_total :
        (q : ℕ) (s : State Bitmap)
        → IsTidy E s
        → IsNamedRegistry E name_of s
        → Batch E name_of s.idl s.all_vlans
        → PortsStay s.idl s.all_ports ⊎ VlansStay s.idl s.all_vlans
        → (t : State Bitmap) × (n : ℕ) × (update_caches E q s ≡ some (t, n))
    unfolding update_caches
    update_caches_total q s tidy reg b stays =
        let (s1, m, e1) = update_ports_total s tidy reg b stays in
        let unique1 = (update_port_cache_lem E L s s1 m tidy.ports e1).unique_vlans tidy.vlans in
        let (s2, n, e2, _, _) = update_vlan_cache_lem E L s1 unique1 in
        (record s2 { idl_seqno = q }, once m + once n, ground (arith, e1, e2))

    transact_total :
        (t : Turn) (s : State Bitmap)
        → IsTidy E s
        → IsNamedRegistry E name_of s
        → Batch E name_of s.idl s.all_vlans
        → PortsStay s.idl s.all_ports ⊎ VlansStay s.idl s.all_vlans
        → (s' : State Bitmap) × (transact E t s ≡ some s')
    unfolding transact vland_reconfigure
    transact_total t s tidy reg b stays = elim (Bool-cases (s.idl.seqno == s.idl_seqno)) [
      | inl idle ↦ (s, ground (arith, idle))
      | inr changed ↦
          let (u, n, e) = update_caches_total s.idl.seqno s tidy reg b stays in
          (
            record u { idl = if n == 0 then s.idl else t.after_commit s.idl u.idl },
            ground (arith, changed, e),
          )
    ]

    -- A turn does not fault in a state that turns with orderly batches have led to, if its own batch is
    -- orderly, unless a cached port and a cached VLAN are both gone from the database that it goes by. In
    -- an orderly batch every VLAN row has the name of its ID, an ID inside the bitmaps, and is the row that
    -- the cached VLAN of its name was read from, if there is one. The bitmap functions and the hash table
    -- keep their documented behaviour.
    pub vland_run_total :
        (db : Db) (s : State Bitmap) (t : Turn)
        → Orderly E name_of db s
        → Batch E name_of (taken E t s) s.all_vlans
        → PortsStay (taken E t s) s.all_ports ⊎ VlansStay (taken E t s) s.all_vlans
        → (s' : State Bitmap) × (vland_run E t s ≡ some s')
    unfolding vland_run locked_run
    vland_run_total db s t r b stays =
        let s1 = record s { idl = t.received } in
        let u = settled E t s1 in
        let (ports, vlans, bitmap) = settled-caches E t s1 in
        let tidy = Orderly-IsTidy E name_of L r in
        let tidy1 : IsTidy E s1 = record {
          ports = tidy.ports;
          vlans = tidy.vlans;
          no_bridge = tidy.no_bridge;
        } in
        let reg = same-Registry E name_of s u vlans bitmap (Orderly-Registered E name_of B L r) in
        let held = not (t.is_lock_contended || not t.has_lock) in
        elim (Bool-cases held) [
          | inr out ↦ (s1, ground (arith, out))
          | inl in_hand ↦
              let w = vland_chk_for_system_configured E s1 in
              elim (Bool-cases w.system_configured) [
                | inr early ↦ (w, ground (arith, in_hand, early))
                | inl ready ↦
                    let (s', e) =
                      transact_total t u (settled-IsTidy E L t s1 tidy1) reg
                        (subst (Batch E name_of u.idl) (sym vlans) b)
                        (subst (λ m. PortsStay u.idl u.all_ports ⊎ VlansStay u.idl m) (sym vlans)
                          (subst (λ m. PortsStay u.idl m ⊎ VlansStay u.idl s.all_vlans) (sym ports)
                            stays)) in
                    (s', ground (arith, in_hand, ready, e))
              ]
        ]
