-- ===== src/Run/Display.antt =====
-- The rows show the status of the cached VLANs over `vland_reconfigure`.
use vland.Common.{ℕ, ◌≡◌, some, All, arith, ◌==◌, Bool-cases, inl, inr}
use vland.External.{Env, LinkLaws}
use vland.State.{State}
use vland.State.Loop.{>>=-eq-some}
use vland.Cache.{update_port_cache, update_vlan_cache}
use vland.Cache.Frame.Ports.{update_port_cache-Kept}
use vland.Cache.Identity.Steps.{update_port_cache-SameIdents}
use vland.Cache.Display.{Displays}
use vland.Cache.Display.Ports.{update_port_cache-Displays}
use vland.Cache.Display.Update.{
  HaveUuids, IsSameRow, HaveUuids-SameConfig, IsSameRow-kept, update_vlan_cache-Displays,
}
use vland.Run.{update_caches, vland_reconfigure}

module _ (E : Env) (L : LinkLaws E) where
  open E use {bitmaps}
  open bitmaps use {Bitmap}

  update_caches-Displays :
      (q : ℕ) (s t : State Bitmap) (n : ℕ)
      → HaveUuids s.idl.vlans
      → All (IsSameRow s.all_vlans) s.idl.vlans
      → Displays E s
      → update_caches E q s ≡ some (t, n)
      → Displays E t
  unfolding update_caches
  update_caches-Displays q s t n uuids same d e =
      let ((s1, m), e1, rest) = >>=-eq-some (update_port_cache E s) _ e in
      let ((s2, k), e2, last) = >>=-eq-some (update_vlan_cache E s1) _ rest in
      let p : t ≡ record s2 { idl_seqno = q } = ground arith in
      let rows = (update_port_cache-Kept E s s1 m e1).db.rows in
      let kept = (update_port_cache-SameIdents E s s1 m e1).0 d.unique in
      let d2 =
        update_vlan_cache-Displays E L s1 s2 k
          (HaveUuids-SameConfig s.idl.vlans s1.idl.vlans rows uuids)
          (IsSameRow-kept s.all_vlans s1.all_vlans s.idl.vlans s1.idl.vlans kept rows same)
          (update_port_cache-Displays E s s1 m e1 d) e2 in
      rw p (record { unique = d2.unique; each = d2.each })

  -- `vland_reconfigure` keeps that the rows show the status of the cached VLANs: where the database has
  -- the row that a cached VLAN was read from, and the row is not in internal use, its status columns are
  -- those of the VLAN's state and reason, unless these are not computed yet; and the row has the VLAN's
  -- name. There is one node to a name before and after. No two VLAN rows have one uuid, a row of a
  -- cached VLAN's name is the one that the VLAN was read from, and the hash table keeps its documented
  -- behaviour.
  pub vland_reconfigure-Displays :
      (s t : State Bitmap) (n : ℕ)
      → HaveUuids s.idl.vlans
      → All (IsSameRow s.all_vlans) s.idl.vlans
      → Displays E s
      → vland_reconfigure E s ≡ some (t, n)
      → Displays E t
  unfolding vland_reconfigure
  vland_reconfigure-Displays s t n uuids same d e = elim (Bool-cases (s.idl.seqno == s.idl_seqno)) [
    | inl idle ↦ let p : t ≡ s = ground arith in rw p d
    | inr changed ↦ update_caches-Displays s.idl.seqno s t n uuids same d (ground arith)
  ]
