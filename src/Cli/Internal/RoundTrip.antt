-- ===== src/Cli/Internal/RoundTrip.antt =====
-- The internal range as `show vlan internal` prints it after the commands that set it.
use vland.Common.{ℕ, ◌<◌, ◌≡◌, Bool, none, some, ◌==◌, ◌&&◌, if◌then◌else◌, arith}
use vland.Cli.{SystemRow, Tables, Session}
use vland.Cli.Hoare.{Writes}
use vland.Cli.Internal.{
  RangeMacros, to_uint16, default_range, shown_range, cli_vlan_int_range_add,
  cli_vlan_int_range_del_arg, cli_vlan_int_range_del,
}

module _ (D : RangeMacros) where
  -- The defaults are shown for a row without a policy. With a policy the row's bounds are shown as
  -- unsigned numbers of 16 bits, a missing one, which reads as -1, included.
  pub shown_range_lem :
      (sys : SystemRow)
      → shown_range D (some sys) ≡ (elim sys.internal_vlan_policy [
        | none ↦ some (D.default_min, D.default_max, D.ascending)
        | some policy ↦
            some (to_uint16 sys.min_internal_vlan, to_uint16 sys.max_internal_vlan, policy)
      ])
  unfolding shown_range
  shown_range_lem sys = ground arith

  module _ (s : Session) (db : Tables) where
    -- What `vlan internal range` hands in is shown as it was given, for bounds of 16 bits in order.
    pub shown_range-cli_vlan_int_range_add :
        (min_vlan max_vlan : ℕ) (is_ascending : Bool)
        → min_vlan < 65536
        → max_vlan < 65536
        → Writes
            (λ db'.
              shown_range D db'.system
              ≡ some (min_vlan, max_vlan, if is_ascending then D.ascending else D.descending))
            (cli_vlan_int_range_add D s db min_vlan max_vlan is_ascending)
    unfolding cli_vlan_int_range_add shown_range
    shown_range-cli_vlan_int_range_add min_vlan max_vlan is_ascending h k = ground arith

    -- `no vlan internal range` with a range of 16-bit bounds other than 0 and 0, where it hands in its
    -- transaction, resets the System row to the defaults if its bounds, as unsigned numbers of 16
    -- bits, are those, and leaves it as it is otherwise.
    pub cli_vlan_int_range_del_arg_lem :
        (min_vlan max_vlan : ℕ)
        → min_vlan < 65536
        → 0 < max_vlan
        → max_vlan < 65536
        → Writes
            (λ db'. db'.system ≡ (elim db.system [
              | none ↦ none
              | some sys ↦ some (
                  if to_uint16 sys.min_internal_vlan == min_vlan
                    && to_uint16 sys.max_internal_vlan == max_vlan
                  then default_range D
                  else sys)
            ]))
            (cli_vlan_int_range_del_arg D s db min_vlan max_vlan)
    unfolding cli_vlan_int_range_del_arg
    cli_vlan_int_range_del_arg_lem min_vlan max_vlan h j k = ground arith

    -- After `no vlan internal range` the defaults are shown, if their bounds have 16 bits.
    pub shown_range-cli_vlan_int_range_del :
        D.default_min < 65536
        → D.default_max < 65536
        → Writes
            (λ db'. shown_range D db'.system ≡ some (D.default_min, D.default_max, D.ascending))
            (cli_vlan_int_range_del D s db)
    unfolding cli_vlan_int_range_del shown_range
    shown_range-cli_vlan_int_range_del h k = ground arith
