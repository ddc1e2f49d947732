-- ===== src/Cli/Install.antt =====
-- The set-up of the commands in src/cli/vlan_vty.c: cli_pre_init, cli_post_init and vlan_ovsdb_init.
pub mod Nodes
use vland.Common.{
  ◌≡◌, refl, ℕ, not, Bool, true, false, List, [], ◌∷◌, ◌++◌, ◌==◌, arith, if◌then◌else◌,
}
use vland.Idl.{VlanRow}
use vland.Run.Columns.{
  Column, Table, vlan, IdlCall, add_table, add_column, vlan_name, vlan_id, vlan_admin,
  vlan_description, vlan_hw_vlan_config, vlan_oper_state, vlan_oper_state_reason,
  vlan_internal_usage, vlan_external_ids, vlan_other_config, is_added, vlan_view,
}

pub data Node : Type 0 where
  config_node enable_node vlan_node vlan_interface_node : Node
  interface_node link_aggregation_node : Node

-- The commands; the first four are vtysh's own.
pub data Element : Type 0 where
  vtysh_exit_interface vtysh_end_all config_exit config_end : Element
  vtysh_interface_vlan no_vtysh_interface_vlan vtysh_vlan vtysh_no_vlan : Element
  cli_vlan_int_range_add cli_vlan_int_range_del cli_vlan_int_range_del_arg : Element
  cli_show_vlan_int_range cli_show_vlan_summary cli_show_vlan cli_show_vlan_id : Element
  cli_vlan_admin cli_no_vlan_admin : Element
  cli_intf_vlan_access cli_intf_no_vlan_access cli_intf_no_vlan_access_val : Element
  cli_intf_vlan_trunk_allowed cli_intf_no_vlan_trunk_allowed : Element
  cli_intf_vlan_trunk_native cli_intf_no_vlan_trunk_native : Element
  cli_intf_vlan_trunk_native_tag cli_intf_no_vlan_trunk_native_tag : Element
  cli_lag_vlan_access cli_lag_no_vlan_access : Element
  cli_lag_vlan_trunk_allowed cli_lag_no_vlan_trunk_allowed : Element
  cli_lag_vlan_trunk_native cli_lag_no_vlan_trunk_native : Element
  cli_lag_vlan_trunk_native_tag cli_lag_no_vlan_trunk_native_tag : Element

-- The callbacks for the running configuration.
pub data Callback : Type 0 where
  global_vlan vlan_context interface_vlan : Callback

pub data InitCall : Type 0 where
  install_node install_default : Node → InitCall
  ovsdb_init : List IdlCall → InitCall
  install_context install_subcontext : Callback → InitCall
  install_element : Node → Element → InitCall

-- The calls on the IDL.
unfoldable pub vlan_ovsdb_init : List IdlCall
vlan_ovsdb_init =
    add_table vlan
    ∷ add_column vlan_name
    ∷ add_column vlan_id
    ∷ add_column vlan_admin
    ∷ add_column vlan_description
    ∷ add_column vlan_hw_vlan_config
    ∷ add_column vlan_oper_state
    ∷ add_column vlan_oper_state_reason
    ∷ add_column vlan_internal_usage
    ∷ add_column vlan_external_ids
    ∷ add_column vlan_other_config
    ∷ []

-- The calls of a set-up, and whether it ends with `assert (0)`. `ok` says whether vtysh installs a
-- callback.
unfoldable pub cli_pre_init : (Callback → Bool) → List InitCall × Bool
unfolding vlan_ovsdb_init
cli_pre_init ok =
    let calls =
      install_node vlan_node
      ∷ install_node vlan_interface_node
      ∷ install_default vlan_node
      ∷ install_default vlan_interface_node
      ∷ ovsdb_init vlan_ovsdb_init
      ∷ install_context global_vlan
      ∷ [] in
    if ok global_vlan
    then (calls ++ install_context vlan_context ∷ [], not (ok vlan_context))
    else (calls, true)

unfoldable pub elements : List (Node × Element)
elements =
    (config_node, no_vtysh_interface_vlan)
    ∷ (vlan_interface_node, vtysh_exit_interface)
    ∷ (vlan_interface_node, vtysh_end_all)
    ∷ (config_node, vtysh_vlan)
    ∷ (config_node, vtysh_no_vlan)
    ∷ (config_node, vtysh_interface_vlan)
    ∷ (config_node, cli_vlan_int_range_add)
    ∷ (config_node, cli_vlan_int_range_del)
    ∷ (config_node, cli_vlan_int_range_del_arg)
    ∷ (enable_node, cli_show_vlan_int_range)
    ∷ (enable_node, cli_show_vlan_summary)
    ∷ (enable_node, cli_show_vlan)
    ∷ (enable_node, cli_show_vlan_id)
    ∷ (vlan_node, config_exit)
    ∷ (vlan_node, config_end)
    ∷ (vlan_node, cli_vlan_admin)
    ∷ (vlan_node, cli_no_vlan_admin)
    ∷ (interface_node, cli_intf_vlan_access)
    ∷ (interface_node, cli_intf_no_vlan_access)
    ∷ (interface_node, cli_intf_no_vlan_access_val)
    ∷ (interface_node, cli_intf_vlan_trunk_allowed)
    ∷ (interface_node, cli_intf_no_vlan_trunk_allowed)
    ∷ (interface_node, cli_intf_vlan_trunk_native)
    ∷ (interface_node, cli_intf_no_vlan_trunk_native)
    ∷ (interface_node, cli_intf_vlan_trunk_native_tag)
    ∷ (interface_node, cli_intf_no_vlan_trunk_native_tag)
    ∷ (link_aggregation_node, cli_lag_vlan_access)
    ∷ (link_aggregation_node, cli_lag_no_vlan_access)
    ∷ (link_aggregation_node, cli_lag_vlan_trunk_allowed)
    ∷ (link_aggregation_node, cli_lag_no_vlan_trunk_allowed)
    ∷ (link_aggregation_node, cli_lag_vlan_trunk_native)
    ∷ (link_aggregation_node, cli_lag_no_vlan_trunk_native)
    ∷ (link_aggregation_node, cli_lag_vlan_trunk_native_tag)
    ∷ (link_aggregation_node, cli_lag_no_vlan_trunk_native_tag)
    ∷ []

install_all : List (Node × Element) → List InitCall
install_all [] = []
install_all ((node, element) ∷ rest) = install_element node element ∷ install_all rest

unfoldable pub cli_post_init : (Callback → Bool) → List InitCall × Bool
unfolding elements install_all
cli_post_init ok =
    (install_all elements ++ install_subcontext interface_vlan ∷ [], not (ok interface_vlan))

-- What the command line's replica of a VLAN row has: every column.
vlan_view-vlan_ovsdb_init : (r : VlanRow) → vlan_view (λ c. is_added c vlan_ovsdb_init) r ≡ r
unfolding vlan_view vlan_ovsdb_init
vlan_view-vlan_ovsdb_init r = refl
