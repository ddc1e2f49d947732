-- ===== src/Idl/Tables.antt =====
-- Reading and writing VLAN rows through a reference. A reference to a row that is gone dangles.
use vland.Common.{ℕ, ◌≡◌, Option, none, some, List, [], ◌∷◌, arith, ◌==◌, if◌then◌else◌}
use vland.Idl.Rows.{VlanRow}

-- `row->column` for a VLAN row; `none` is a read through a dangling pointer.
abbrev pub find_vlan : ℕ → List VlanRow → Option VlanRow
find_vlan u [] = none
find_vlan u (r ∷ rs) = if u == r.uuid then some r else find_vlan u rs

-- Writing the columns of one row.
abbrev pub put_vlan : ℕ → (VlanRow → VlanRow) → List VlanRow → List VlanRow
put_vlan u f [] = []
put_vlan u f (r ∷ rs) = if u == r.uuid then f r ∷ rs else r ∷ put_vlan u f rs

pub find_vlan-put_vlan :
    (u w : ℕ) (f : VlanRow → VlanRow) (r : VlanRow) (rs : List VlanRow)
    → ((x : VlanRow) → (f x).uuid ≡ x.uuid)
    → find_vlan u rs ≡ some r
    → find_vlan w (put_vlan u f rs) ≡ (if w == u then some (f r) else find_vlan w rs)
find_vlan-put_vlan u w f r [] k e = ground arith
find_vlan-put_vlan u w f r (x ∷ rs) k e = ground (arith, k x, k r, find_vlan-put_vlan u w f r rs k)
