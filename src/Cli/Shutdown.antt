-- ===== src/Cli/Shutdown.antt =====
-- `shutdown` and `no shutdown` of a VLAN, cli_vlan_admin and cli_no_vlan_admin of src/cli/vlan_vty.c.
-- `vlan_id` is the number in `vty->index`.
use vland.Common.{
  ℕ, String, ◌≡◌, refl, ◌≢◌, false, not, Option, none, some, List, [], ◌∷◌, ◌==◌, if◌then◌else◌,
  arith, eq_iff,
}
use vland.Idl.{Admin, VlanRow, find_vlan, put_vlan, find_vlan-put_vlan}
use vland.External.{Strings}
use vland.Text.{admin_of}
use vland.Cli.{
  Tables, Session, transaction_failed, shutdown_not_permitted, Step, ◌>>=◌, require, deref, finish,
  default_vlan,
}
use vland.Cli.Hoare.{Writes, is_fault}

-- The first VLAN row with an ID.
unfoldable pub find_vlan_id : ℕ → List VlanRow → Option VlanRow
find_vlan_id id [] = none
find_vlan_id id (row ∷ rows) = if row.id == id then some row else find_vlan_id id rows

-- `ovsrec_vlan_set_admin`
abbrev pub set_admin : String → VlanRow → VlanRow
set_admin admin row = record row { admin = some admin }

module _ (t : Strings) (s : Session) (db : Tables) where
  abbrev pub write_admin : String → VlanRow → Tables
  write_admin admin row = record db { vlans = put_vlan row.uuid (set_admin admin) db.vlans }

  unfoldable pub cli_vlan_admin : ℕ → Step Unit
  unfolding find_vlan_id
  cli_vlan_admin vlan_id = do
    tt ← require s.has_txn (transaction_failed ∷ [])
    tt ← require (not (vlan_id == default_vlan)) (shutdown_not_permitted ∷ [])
    row ← deref (find_vlan_id vlan_id db.vlans)
    finish s [] (write_admin t.admin_down row)

  unfoldable pub cli_no_vlan_admin : ℕ → Step Unit
  unfolding find_vlan_id
  cli_no_vlan_admin vlan_id = do
    tt ← require s.has_txn (transaction_failed ∷ [])
    row ← deref (find_vlan_id vlan_id db.vlans)
    finish s [] (write_admin t.admin_up row)

  -- The daemon reads an administrative state in one row, whose other columns are what they were; all
  -- other rows stay.
  pub record Sets (admin : Admin) (row : VlanRow) (db' : Tables) : Type 0 where
    pub new_row : VlanRow
    pub found : find_vlan row.uuid db'.vlans ≡ some new_row
    pub reads : admin_of t new_row ≡ admin
    pub others : new_row ≡ record row { admin = new_row.admin }
    pub rest : (u : ℕ) → u ≢ row.uuid → find_vlan u db'.vlans ≡ find_vlan u db.vlans

  write_admin-Sets :
      (text : String) (admin : Admin) (row : VlanRow)
      → find_vlan row.uuid db.vlans ≡ some row
      → admin_of t (set_admin text row) ≡ admin
      → Sets admin row (write_admin text row)
  write_admin-Sets text admin row own reads = record {
    new_row = set_admin text row;
    found =
        ground (
          arith,
          find_vlan-put_vlan row.uuid row.uuid (set_admin text) row db.vlans (λ x. refl) own,
        );
    reads = reads;
    others = refl;
    rest = λ u ne.
        ground (arith, find_vlan-put_vlan row.uuid u (set_admin text) row db.vlans (λ x. refl) own);
  }

  -- `shutdown` of a VLAN that has a row does not fault, and hands in nothing for the default VLAN.
  -- Where it hands in its transaction, the daemon then reads the state down in the first row of the
  -- ID, and nothing else changes in the VLAN rows. The reference to this row leads to it, and the
  -- strings of up and down differ.
  pub cli_vlan_admin_lem :
      (vlan_id : ℕ) (row : VlanRow)
      → t.admin_up ≢ t.admin_down
      → find_vlan_id vlan_id db.vlans ≡ some row
      → find_vlan row.uuid db.vlans ≡ some row
      → Writes (λ db'. Sets Admin.down row db' × (vlan_id ≢ default_vlan)) (cli_vlan_admin vlan_id)
        × (is_fault (cli_vlan_admin vlan_id) ≡ false)
  unfolding cli_vlan_admin admin_of
  cli_vlan_admin_lem vlan_id row ne found own =
      let sets =
        write_admin-Sets t.admin_down Admin.down row own
          (ground (arith, eq_iff t.admin_up t.admin_down)) in
      ground (arith, found, sets)

  -- `no shutdown` of a VLAN that has a row does not fault. Where it hands in its transaction, the
  -- daemon then reads the state up in the first row of the ID, and nothing else changes in the VLAN
  -- rows. The reference to this row leads to it.
  pub cli_no_vlan_admin_lem :
      (vlan_id : ℕ) (row : VlanRow)
      → find_vlan_id vlan_id db.vlans ≡ some row
      → find_vlan row.uuid db.vlans ≡ some row
      → Writes (Sets Admin.up row) (cli_no_vlan_admin vlan_id)
        × (is_fault (cli_no_vlan_admin vlan_id) ≡ false)
  unfolding cli_no_vlan_admin admin_of
  cli_no_vlan_admin_lem vlan_id row found own =
      let sets =
        write_admin-Sets t.admin_up Admin.up row own
          (ground (arith, eq_iff t.admin_up t.admin_up)) in
      ground (arith, found, sets)
