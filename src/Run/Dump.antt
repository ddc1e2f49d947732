-- ===== src/Run/Dump.antt =====
-- The dump of the daemon's data: vland_debug_dump and l2vlan_diag_dump_callback of
-- src/vland_ovsdb_if.c. A printed section is a line with the values that are printed in it.
use vland.Common.{
  ap, ℕ, ◌<◌, ◌∙◌, sym, String, ◌≡◌, refl, Bool, true, none, some, List, [], ◌∷◌, ◌++◌, ◌==◌,
  contains, arith, Nodes, find, Unique, eq_iff, Bool-cases, inl, inr, if◌then◌else◌,
}
use vland.Common.Int.{ℤ}
use vland.External.{Env, BitmapLaws}
use vland.State.{PortData, VlanData, State}
use vland.Text.{
  vlan_mode_to_str, vlan_admin_to_str, vlan_oper_state_to_str, vlan_oper_state_reason_to_str,
}
use vland.Vlan.Registry.{HasVid, Registered}

pub data DumpLine : Type 0 where
  port_line : String → String → ℤ → Bool → List ℕ → DumpLine
  all_vlans_line : List ℕ → DumpLine
  vlan_line : ℕ → String → String → String → String → DumpLine

-- All but the last item.
abbrev pub without_last : {A : Type 0} → List A → List A
without_last [] = []
without_last (x ∷ []) = []
without_last (x ∷ y ∷ ys) = x ∷ without_last (y ∷ ys)

-- The IDs of the bitmap, and of the VLANs, in a dump.
abbrev pub bitmap_ids : List DumpLine → List ℕ
bitmap_ids [] = []
bitmap_ids (all_vlans_line ids ∷ lines) = ids
bitmap_ids (_ ∷ lines) = bitmap_ids lines

abbrev pub vlan_ids : List DumpLine → List ℕ
vlan_ids [] = []
vlan_ids (vlan_line id name admin state reason ∷ lines) = id ∷ vlan_ids lines
vlan_ids (_ ∷ lines) = vlan_ids lines

module _ (E : Env) where
  open E use {strings, bitmaps}
  open bitmaps use {Bitmap, ones, size}

  dump_ports : Nodes (PortData Bitmap) → List DumpLine
  dump_ports [] = []
  dump_ports ((k, port) ∷ ports) =
      port_line port.name (vlan_mode_to_str strings port.vlan_mode) port.native_vid
        port.trunk_all_vlans (ones port.vlans_bitmap)
      ∷ dump_ports ports

  dump_vlans : Nodes VlanData → List DumpLine
  dump_vlans [] = []
  dump_vlans ((k, vl) ∷ vlans) =
      vlan_line vl.vid vl.name (vlan_admin_to_str strings vl.admin)
        (vlan_oper_state_to_str strings vl.op_state)
        (vlan_oper_state_reason_to_str strings vl.op_state_reason)
      ∷ dump_vlans vlans

  unfoldable pub vland_debug_dump : State Bitmap → List DumpLine
  unfolding dump_ports dump_vlans
  vland_debug_dump s =
      dump_ports s.all_ports ++ all_vlans_line (ones s.all_vlans_bitmap) ∷ dump_vlans s.all_vlans

  -- The characters of the buffer that a diagnostic dump returns, for a prefix of the feature's name.
  -- `text` is the text of the printed lines; `snprintf` keeps a place for the final NUL.
  unfoldable pub l2vlan_diag_dump_callback :
      {Char : Type 0} → (List DumpLine → List Char) → Bool → State Bitmap → List Char
  unfolding vland_debug_dump
  l2vlan_diag_dump_callback text is_l2vlan s =
      without_last (if is_l2vlan then text (vland_debug_dump s) else [])

  bitmap_ids-dump :
      (ports : Nodes (PortData Bitmap)) (ids : List ℕ) (lines : List DumpLine)
      → bitmap_ids (dump_ports ports ++ all_vlans_line ids ∷ lines) ≡ ids
  unfolding dump_ports
  bitmap_ids-dump [] ids lines = refl
  bitmap_ids-dump ((k, port) ∷ ports) ids lines = bitmap_ids-dump ports ids lines

  vlan_ids-dump :
      (ports : Nodes (PortData Bitmap)) (ids : List ℕ) (lines : List DumpLine)
      → vlan_ids (dump_ports ports ++ all_vlans_line ids ∷ lines) ≡ vlan_ids lines
  unfolding dump_ports
  vlan_ids-dump [] ids lines = refl
  vlan_ids-dump ((k, port) ∷ ports) ids lines = vlan_ids-dump ports ids lines

  HasVid-later :
      (j : ℕ) (k : String) (v : VlanData) (m : Nodes VlanData)
      → find k m ≡ none
      → HasVid m j
      → HasVid ((k, v) ∷ m) j
  HasVid-later j k v m fresh (i, w, e, same) = (i, w, ground (arith, eq_iff i k), same)

  contains-HasVid :
      (j : ℕ) (m : Nodes VlanData)
      → Unique m
      → contains j (vlan_ids (dump_vlans m)) ≡ true
      → HasVid m j
  unfolding dump_vlans
  contains-HasVid j [] u e = cc
  contains-HasVid j ((k, v) ∷ m) u e = elim (Bool-cases (j == v.vid)) [
    | inl here ↦ (k, v, ground (arith, eq_iff k k), ground arith)
    | inr later ↦ HasVid-later j k v m u.0 (contains-HasVid j m u.1 (ground arith))
  ]

  HasVid-contains :
      (j : ℕ) (k : String) (v : VlanData) (m : Nodes VlanData)
      → find k m ≡ some v
      → v.vid ≡ j
      → contains j (vlan_ids (dump_vlans m)) ≡ true
  unfolding dump_vlans
  HasVid-contains j k v [] e same = cc
  HasVid-contains j k v ((i, w) ∷ m) e same = ground (arith, HasVid-contains j k v m)

  -- In a state in which the bitmap of all VLANs holds the IDs of the cached VLANs, the dump prints for
  -- the bitmap exactly the IDs that it prints for the VLANs. The bitmap functions keep their documented
  -- behaviour, and the ID lies inside the bitmap.
  pub vland_debug_dump_lem :
      (B : BitmapLaws bitmaps) (s : State Bitmap) (j : ℕ)
      → Registered E s
      → j < size
      → contains j (bitmap_ids (vland_debug_dump s)) ≡ contains j (vlan_ids (vland_debug_dump s))
  unfolding vland_debug_dump
  vland_debug_dump_lem B s j r h =
      let vids = vlan_ids (dump_vlans s.all_vlans) in
      let shown : contains j (bitmap_ids (vland_debug_dump s))
          ≡ bitmaps.bitmap_is_set s.all_vlans_bitmap j =
        ap (contains j)
          (bitmap_ids-dump s.all_ports (ones s.all_vlans_bitmap) (dump_vlans s.all_vlans))
        ∙ B.contains-ones s.all_vlans_bitmap j h in
      let listed =
        ap (contains j)
          (vlan_ids-dump s.all_ports (ones s.all_vlans_bitmap) (dump_vlans s.all_vlans)) in
      let (to, from) = r.bits j h in
      let same : bitmaps.bitmap_is_set s.all_vlans_bitmap j ≡ contains j vids =
        elim (Bool-cases (bitmaps.bitmap_is_set s.all_vlans_bitmap j)) [
          | inl set ↦
              let (k, v, e, vid) = to set in set ∙ sym (HasVid-contains j k v s.all_vlans e vid)
          | inr clear ↦ elim (Bool-cases (contains j vids)) [
            | inl held ↦
                absurd (ground (arith, clear, from (contains-HasVid j s.all_vlans r.unique held)))
            | inr free ↦ clear ∙ sym free
          ]
        ] in
      shown ∙ same ∙ sym listed
