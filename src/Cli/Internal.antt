-- ===== src/Cli/Internal.antt =====
-- The range of VLANs for internal use: vlan_int_range_add, vlan_int_range_del, their commands, and the
-- range that show_vlan_int_range prints, in src/cli/vlan_vty.c. The arguments are the parsed numbers,
-- and a number stored in the System row reads back as itself.
pub mod RoundTrip
use vland.Common.{
  ℕ, ◌+◌, ◌-◌, ◌%◌, String, Bool, true, false, not, ◌&&◌, ◌||◌, Option, none, some, List, [], ◌∷◌,
  ◌==◌, ltb, if◌then◌else◌,
}
use vland.Common.Int.{ℤ, pos, negsuc}
use vland.Run.{TxnStatus}
use vland.Cli.{
  SystemRow, Tables, Session, Message, invalid_vlan_range, invalid_internal_range, Step, stop,
  cmd_success, cmd_ovsdb_failure, aborted, finished,
}

-- The schema's default range and the strings of the policies, and the value of each status that
-- `cli_do_config_finish` returns.
pub record RangeMacros : Type 0 where
  pub default_min : ℕ
  pub default_max : ℕ
  pub ascending : String
  pub descending : String
  pub status_value : TxnStatus → ℕ

-- Conversion of an `int` to uint16_t.
abbrev pub to_uint16 : ℤ → ℕ
to_uint16 (pos n) = n % 65536
to_uint16 (negsuc n) = 65535 - n % 65536

-- `==` of two values of type `int`.
abbrev pub same_int : ℤ → ℤ → Bool
same_int (pos a) (pos b) = a == b
same_int (negsuc a) (negsuc b) = a == b
same_int _ _ = false

-- `v == INTERNAL_VLAN_ID_INVALID`, which is -1, for `v` of type uint16_t: both are compared as `int`.
abbrev pub is_invalid : ℕ → Bool
is_invalid v = same_int (pos v) (negsuc 0)

module _ (D : RangeMacros) where
  -- The default range, as `vlan_int_range_del` writes it.
  abbrev pub default_range : SystemRow
  default_range = record {
    min_internal_vlan = pos D.default_min;
    max_internal_vlan = pos D.default_max;
    internal_vlan_policy = some D.ascending;
  }

  -- The range and the policy that `show_vlan_int_range` prints, `none` without a System row.
  unfoldable pub shown_range : Option SystemRow → Option (ℕ × ℕ × String)
  shown_range none = none
  shown_range (some sys) =
      let min_vlan = to_uint16 sys.min_internal_vlan in
      let max_vlan = to_uint16 sys.max_internal_vlan in
      elim sys.internal_vlan_policy [
        | none ↦ some (D.default_min, D.default_max, D.ascending)
        | some policy ↦
            if is_invalid min_vlan || is_invalid max_vlan
            then some (D.default_min, D.default_max, D.ascending)
            else some (min_vlan, max_vlan, policy)
      ]

  module _ (s : Session) (db : Tables) where
    abbrev pub fail : Step Unit
    fail = stop (record { code = cmd_ovsdb_failure; said = []; ending = aborted; enters = none })

    -- `if (cli_do_config_finish (status_txn))`
    abbrev pub commit : List Message → SystemRow → Step Unit
    commit said sys = stop (record {
      code = if D.status_value s.status == 0 then cmd_ovsdb_failure else cmd_success;
      said = said;
      ending = finished (record db { system = some sys });
      enters = none;
    })

    unfoldable pub vlan_int_range_add : ℕ → ℕ → String → Step Unit
    vlan_int_range_add min_vlan max_vlan policy = elim db.system [
      | none ↦ fail
      | some sys ↦
          if s.has_txn
          then commit [] (record sys {
            min_internal_vlan = pos min_vlan;
            max_internal_vlan = pos max_vlan;
            internal_vlan_policy = some policy;
          })
          else fail
    ]

    unfoldable pub vlan_int_range_del : ℕ → ℕ → Step Unit
    vlan_int_range_del min_vlan_in max_vlan_in = elim db.system [
      | none ↦ fail
      | some sys ↦
          let min_vlan_db = to_uint16 sys.min_internal_vlan in
          let max_vlan_db = to_uint16 sys.max_internal_vlan in
          if not s.has_txn
          then fail
          else (if min_vlan_db == min_vlan_in && max_vlan_db == max_vlan_in
                || min_vlan_in == 0 && max_vlan_in == 0
              then commit [] default_range
              else commit (invalid_internal_range min_vlan_db max_vlan_db ∷ []) sys)
    ]

    abbrev pub reject : Step Unit
    reject = stop (record {
      code = cmd_success;
      said = invalid_vlan_range ∷ [];
      ending = aborted;
      enters = none;
    })

    -- `is_ascending` says whether the third argument begins with an `a`.
    unfoldable pub cli_vlan_int_range_add : ℕ → ℕ → Bool → Step Unit
    unfolding vlan_int_range_add
    cli_vlan_int_range_add min_vlan max_vlan is_ascending =
        if ltb (max_vlan % 65536) (min_vlan % 65536)
        then reject
        else vlan_int_range_add min_vlan max_vlan
            (if is_ascending then D.ascending else D.descending)

    unfoldable pub cli_vlan_int_range_del : Step Unit
    unfolding vlan_int_range_del
    cli_vlan_int_range_del = vlan_int_range_del 0 0

    unfoldable pub cli_vlan_int_range_del_arg : ℕ → ℕ → Step Unit
    unfolding vlan_int_range_del
    cli_vlan_int_range_del_arg min_vlan max_vlan =
        if ltb (max_vlan % 65536) (min_vlan % 65536)
        then reject
        else vlan_int_range_del (min_vlan % 65536) (max_vlan % 65536)
