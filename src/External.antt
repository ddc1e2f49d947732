-- ===== src/External.antt =====
-- What the sources call and do not contain: the strings of the generated schema headers, Open
-- vSwitch's bitmaps and string hashes, and the IDL's change flags. Each definition of the model that
-- uses them takes them as its argument `E`.
use vland.Common.{
  ℕ, String, ◌<◌, ◌≡◌, ◌≢◌, ◌↔◌, Bool, false, ◌||◌, none, List, ◌∷◌, ◌==◌, contains, str_eq,
  if◌then◌else◌, Nodes, Unique, All, find, some,
}
use vland.Idl.{PortRow, VlanRow}

-- The values of the schema's macros that the sources name.
pub record Strings : Type 0 where
  pub mode_access : String
  pub mode_trunk : String
  pub mode_native_tagged : String
  pub mode_native_untagged : String
  pub admin_up : String
  pub admin_down : String
  pub state_unknown : String
  pub state_up : String
  pub state_down : String
  pub reason_unknown : String
  pub reason_admin_down : String
  pub reason_ok : String
  pub reason_no_member_port : String
  pub default_bridge_name : String
  pub hw_enable_true : String

-- The schema gives the values of one column different strings.
pub record IsDistinct (t : Strings) : Type 0 where
  pub access_trunk : t.mode_access ≢ t.mode_trunk
  pub access_tagged : t.mode_access ≢ t.mode_native_tagged
  pub access_untagged : t.mode_access ≢ t.mode_native_untagged
  pub trunk_tagged : t.mode_trunk ≢ t.mode_native_tagged
  pub trunk_untagged : t.mode_trunk ≢ t.mode_native_untagged
  pub tagged_untagged : t.mode_native_tagged ≢ t.mode_native_untagged

-- bitmap.h and vlan-bitmap.h. `size` is VLAN_BITMAP_SIZE, and `ones b` the positions that
-- BITMAP_FOR_EACH_1 visits below it.
pub record Bitmaps : Type 1 where
  pub Bitmap : Type 0
  pub size : ℕ
  pub bitmap_allocate : Bitmap
  pub bitmap_set : Bitmap → ℕ → Bool → Bitmap
  pub bitmap_is_set : Bitmap → ℕ → Bool
  pub bitmap_or : Bitmap → Bitmap → Bitmap
  pub vlan_bitmap_clone : Bitmap → Bitmap
  pub vlan_bitmap_from_array : List ℕ → Bitmap
  pub ones : Bitmap → List ℕ

-- The documented behaviour of the bitmap functions, at positions inside the bitmap.
pub record BitmapLaws (B : Bitmaps) : Type 0 where
  pub set-allocate : (i : ℕ) → i < B.size → B.bitmap_is_set B.bitmap_allocate i ≡ false
  pub is_set-set :
      (b : B.Bitmap) (i : ℕ) (v : Bool) (j : ℕ)
      → i < B.size
      → j < B.size
      → B.bitmap_is_set (B.bitmap_set b i v) j ≡ (if j == i then v else B.bitmap_is_set b j)
  pub is_set-or :
      (a b : B.Bitmap) (i : ℕ)
      → i < B.size
      → B.bitmap_is_set (B.bitmap_or a b) i ≡ (B.bitmap_is_set a i || B.bitmap_is_set b i)
  pub is_set-clone :
      (b : B.Bitmap) (i : ℕ)
      → i < B.size
      → B.bitmap_is_set (B.vlan_bitmap_clone b) i ≡ B.bitmap_is_set b i
  pub is_set-from_array :
      (v : ℕ) (vs : List ℕ) (i : ℕ)
      → v < B.size
      → All (λ x. x < B.size) vs
      → i < B.size
      → B.bitmap_is_set (B.vlan_bitmap_from_array (v ∷ vs)) i ≡ contains i (v ∷ vs)
  pub contains-ones :
      (b : B.Bitmap) (i : ℕ) → i < B.size → contains i (B.ones b) ≡ B.bitmap_is_set b i
  pub ones-lt : (b : B.Bitmap) → All (λ i. i < B.size) (B.ones b)

-- `link k v m` is the table `m` after a node with the new name `k` has gone in; the hash decides
-- where. `port_inserted r n` and the like are the macros OVSREC_IDL_IS_ROW_INSERTED and
-- OVSREC_IDL_IS_ROW_MODIFIED at row `r` and sequence number `n`.
pub record Env : Type 1 where
  pub strings : Strings
  pub bitmaps : Bitmaps
  pub link : {V : Type 0} → String → V → Nodes V → Nodes V
  pub port_inserted : PortRow → ℕ → Bool
  pub port_modified : PortRow → ℕ → Bool
  pub vlan_inserted : VlanRow → ℕ → Bool
  pub vlan_modified : VlanRow → ℕ → Bool

-- The documented behaviour of `shash_add` for a name that the table does not have.
pub record LinkLaws (E : Env) : Type 1 where
  pub find-link :
      {V : Type 0} (k j : String) (v : V) (m : Nodes V)
      → find k m ≡ none
      → find j (E.link k v m) ≡ (if str_eq j k then some v else find j m)
  pub Unique-link :
      {V : Type 0} (k : String) (v : V) (m : Nodes V)
      → find k m ≡ none
      → Unique m
      → Unique (E.link k v m)
  pub All-link :
      {V : Type 0} (P : String × V → Type 0) (k : String) (v : V) (m : Nodes V)
      → All P (E.link k v m) ↔ (P (k, v) × All P m)
