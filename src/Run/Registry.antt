-- ===== src/Run/Registry.antt =====
-- The bitmap of all VLANs against the table of VLANs over a turn of the daemon.
use vland.Common.{
  ap, sym, ℕ, String, ◌≡◌, ◌∙◌, refl, ◌||◌, not, some, List, [], ◌∷◌, arith, ◌==◌, All, All₂,
  if◌then◌else◌, Bool-cases, inl, inr,
}
use vland.Idl.{Db, VlanRow}
use vland.External.{Env, BitmapLaws, LinkLaws}
use vland.State.{State}
use vland.State.Loop.{>>=-eq-some}
use vland.Cache.{update_port_cache, update_vlan_cache}
use vland.Cache.Frame.{SameConfig}
use vland.Cache.Frame.Ports.{update_port_cache-Kept}
use vland.Cache.Registry.{
  IsNamedRow, IsNamedRegistry, update_port_cache-Registry, update_vlan_cache-Registry,
}
use vland.Run.{
  Turn, update_caches, vland_reconfigure, vland_chk_for_system_configured, create_default_vlan,
  transact, locked_run, vland_run,
}
use vland.Run.Main.{vland_ovsdb_init}
use vland.Run.Mirror.{settled}

module _ (E : Env) where
  open E use {bitmaps}
  open bitmaps use {Bitmap, size}

  named_kept :
      (name_of : ℕ → String) (rows rows' : List VlanRow)
      → All₂ SameConfig rows rows'
      → All (IsNamedRow E name_of) rows
      → All (IsNamedRow E name_of) rows'
  named_kept name_of [] [] h p = tt
  named_kept name_of (r ∷ rows) (r' ∷ rows') h p =
      let id : r'.id ≡ r.id = ground (arith, h.0) in
      let name : r'.name ≡ r.name = ground (arith, h.0) in
      ((name ∙ p.0.0 ∙ ap name_of (sym id), rw id p.0.1), named_kept name_of rows rows' h.1 p.1)
  named_kept name_of [] (r ∷ rows) h p = absurd h
  named_kept name_of (r ∷ rows) [] h p = absurd h

  -- What the caches are updated from in a turn with the lock.
  abbrev pub taken : Turn → State Bitmap → Db
  taken t s = (settled E t (record s { idl = t.received })).idl

  -- Two states with the same VLANs.
  pub same-Registry :
      (name_of : ℕ → String) (s t : State Bitmap)
      → t.all_vlans ≡ s.all_vlans
      → t.all_vlans_bitmap ≡ s.all_vlans_bitmap
      → IsNamedRegistry E name_of s
      → IsNamedRegistry E name_of t
  same-Registry name_of s t a b (r, h) = (
    record {
      unique = rw a r.unique;
      range = rw a r.range;
      distinct = rw a r.distinct;
      bits = rw (a, b) r.bits;
    },
    rw a h,
  )

  -- The settled state has the caches of the state before.
  pub settled-caches :
      (t : Turn) (s : State Bitmap)
      → ((settled E t s).all_ports ≡ s.all_ports)
        × ((settled E t s).all_vlans ≡ s.all_vlans)
        × ((settled E t s).all_vlans_bitmap ≡ s.all_vlans_bitmap)
  unfolding vland_chk_for_system_configured create_default_vlan
  settled-caches t s = ground arith

  module _ (B : BitmapLaws bitmaps) (L : LinkLaws E) (name_of : ℕ → String) where
    pub init-Registry : (db : Db) → IsNamedRegistry E name_of (vland_ovsdb_init E db)
    unfolding vland_ovsdb_init
    init-Registry db = (
      record {
        unique = tt;
        range = λ k v e. cc;
        distinct = λ k j v w e. cc;
        bits =
            λ j h. (λ on. ground (arith, B.set-allocate j h), λ has. let (k, v, e, p) = has in cc);
      },
      λ k v e. cc,
    )

    update_caches-Registry :
        (q : ℕ) (s t : State Bitmap) (n : ℕ)
        → All (IsNamedRow E name_of) s.idl.vlans
        → IsNamedRegistry E name_of s
        → update_caches E q s ≡ some (t, n)
        → IsNamedRegistry E name_of t
    unfolding update_caches
    update_caches-Registry q s t n rows r e =
        let ((s1, m), e1, rest) = >>=-eq-some (update_port_cache E s) _ e in
        let ((s2, k), e2, last) = >>=-eq-some (update_vlan_cache E s1) _ rest in
        let p : t ≡ record s2 { idl_seqno = q } = ground arith in
        let kept = update_port_cache-Kept E s s1 m e1 in
        let rows1 = named_kept name_of s.idl.vlans s1.idl.vlans kept.db.rows rows in
        let r1 = update_port_cache-Registry E B L name_of s s1 m r e1 in
        let r2 = update_vlan_cache-Registry E B L name_of s1 s2 k rows1 r1 e2 in
        same-Registry name_of s2 t (ground (arith, p)) (ground (arith, p)) r2

    transact-Registry :
        (t : Turn) (s s' : State Bitmap)
        → All (IsNamedRow E name_of) s.idl.vlans
        → IsNamedRegistry E name_of s
        → transact E t s ≡ some s'
        → IsNamedRegistry E name_of s'
    unfolding transact vland_reconfigure
    transact-Registry t s s' rows r e =
        let ((u, n), e1, last) = >>=-eq-some (vland_reconfigure E s) _ e in
        let p : s' ≡ record u { idl = if n == 0 then s.idl else t.after_commit s.idl u.idl } =
          ground arith in
        let ru : IsNamedRegistry E name_of u = elim (Bool-cases (s.idl.seqno == s.idl_seqno)) [
          | inl idle ↦ let q : u ≡ s = ground (arith, e1, idle) in rw q r
          | inr changed ↦
              update_caches-Registry s.idl.seqno s u n rows r (ground (arith, e1, changed))
        ] in
        same-Registry name_of u s' (ground (arith, p)) (ground (arith, p)) ru

    -- A turn that does not fault keeps the registry, if the names of the VLAN rows that it goes by are
    -- those of their IDs.
    pub vland_run-Registry :
        (t : Turn) (s s' : State Bitmap)
        → All (IsNamedRow E name_of) (taken t s).vlans
        → IsNamedRegistry E name_of s
        → vland_run E t s ≡ some s'
        → IsNamedRegistry E name_of s'
    unfolding vland_run locked_run
    vland_run-Registry t s s' rows r e =
        let s1 = record s { idl = t.received } in
        let r1 = same-Registry name_of s s1 refl refl r in
        let u = settled E t s1 in
        let c = settled-caches t s1 in
        let ru = same-Registry name_of s1 u c.1 c.2 r1 in
        let held = not (t.is_lock_contended || not t.has_lock) in
        elim (Bool-cases held) [
          | inr out ↦ let p : s' ≡ s1 = ground (arith, out) in rw p r1
          | inl in_hand ↦
              elim (Bool-cases (vland_chk_for_system_configured E s1).system_configured) [
                | inl ready ↦ transact-Registry t u s' rows ru (ground (arith, in_hand, ready))
                | inr early ↦
                    let w = vland_chk_for_system_configured E s1 in
                    let p : s' ≡ w = ground (arith, in_hand, early) in
                    let same : (w.all_vlans ≡ s1.all_vlans)
                        × (w.all_vlans_bitmap ≡ s1.all_vlans_bitmap) =
                      unfold vland_chk_for_system_configured in ground arith in
                    rw p (same-Registry name_of s1 w same.0 same.1 r1)
              ]
        ]
