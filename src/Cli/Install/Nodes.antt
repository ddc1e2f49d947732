-- ===== src/Cli/Install/Nodes.antt =====
-- In which node each command is installed.
use vland.Common.{◌≡◌, refl, ℕ, Bool, List, [], ◌∷◌, ◌==◌, if◌then◌else◌}
use vland.Cli.Install.{
  Node, config_node, enable_node, vlan_node, vlan_interface_node, interface_node,
  link_aggregation_node, Callback, InitCall, install_element, cli_post_init, Element,
  vtysh_exit_interface, vtysh_end_all, config_exit, config_end, vtysh_interface_vlan,
  no_vtysh_interface_vlan, vtysh_vlan, vtysh_no_vlan, cli_vlan_int_range_add,
  cli_vlan_int_range_del, cli_vlan_int_range_del_arg, cli_show_vlan_int_range,
  cli_show_vlan_summary, cli_show_vlan, cli_show_vlan_id, cli_vlan_admin, cli_no_vlan_admin,
  cli_intf_vlan_access, cli_intf_no_vlan_access, cli_intf_no_vlan_access_val,
  cli_intf_vlan_trunk_allowed, cli_intf_no_vlan_trunk_allowed, cli_intf_vlan_trunk_native,
  cli_intf_no_vlan_trunk_native, cli_intf_vlan_trunk_native_tag, cli_intf_no_vlan_trunk_native_tag,
  cli_lag_vlan_access, cli_lag_no_vlan_access, cli_lag_vlan_trunk_allowed,
  cli_lag_no_vlan_trunk_allowed, cli_lag_vlan_trunk_native, cli_lag_no_vlan_trunk_native,
  cli_lag_vlan_trunk_native_tag, cli_lag_no_vlan_trunk_native_tag,
}

-- The places at which a set-up installs an element.
abbrev pub element_code : Element → ℕ
element_code vtysh_exit_interface = 0
element_code vtysh_end_all = 1
element_code config_exit = 2
element_code config_end = 3
element_code vtysh_interface_vlan = 4
element_code no_vtysh_interface_vlan = 5
element_code vtysh_vlan = 6
element_code vtysh_no_vlan = 7
element_code cli_vlan_int_range_add = 8
element_code cli_vlan_int_range_del = 9
element_code cli_vlan_int_range_del_arg = 10
element_code cli_show_vlan_int_range = 11
element_code cli_show_vlan_summary = 12
element_code cli_show_vlan = 13
element_code cli_show_vlan_id = 14
element_code cli_vlan_admin = 15
element_code cli_no_vlan_admin = 16
element_code cli_intf_vlan_access = 17
element_code cli_intf_no_vlan_access = 18
element_code cli_intf_no_vlan_access_val = 19
element_code cli_intf_vlan_trunk_allowed = 20
element_code cli_intf_no_vlan_trunk_allowed = 21
element_code cli_intf_vlan_trunk_native = 22
element_code cli_intf_no_vlan_trunk_native = 23
element_code cli_intf_vlan_trunk_native_tag = 24
element_code cli_intf_no_vlan_trunk_native_tag = 25
element_code cli_lag_vlan_access = 26
element_code cli_lag_no_vlan_access = 27
element_code cli_lag_vlan_trunk_allowed = 28
element_code cli_lag_no_vlan_trunk_allowed = 29
element_code cli_lag_vlan_trunk_native = 30
element_code cli_lag_no_vlan_trunk_native = 31
element_code cli_lag_vlan_trunk_native_tag = 32
element_code cli_lag_no_vlan_trunk_native_tag = 33

abbrev pub nodes_of : Element → List InitCall → List Node
nodes_of e [] = []
nodes_of e (install_element node f ∷ calls) =
    let rest = nodes_of e calls in if element_code e == element_code f then node ∷ rest else rest
nodes_of e (_ ∷ calls) = nodes_of e calls

-- The node that a command stands in, by what it works on.
abbrev pub node_of : Element → Node
node_of vtysh_exit_interface = vlan_interface_node
node_of vtysh_end_all = vlan_interface_node
node_of config_exit = vlan_node
node_of config_end = vlan_node
node_of vtysh_interface_vlan = config_node
node_of no_vtysh_interface_vlan = config_node
node_of vtysh_vlan = config_node
node_of vtysh_no_vlan = config_node
node_of cli_vlan_int_range_add = config_node
node_of cli_vlan_int_range_del = config_node
node_of cli_vlan_int_range_del_arg = config_node
node_of cli_show_vlan_int_range = enable_node
node_of cli_show_vlan_summary = enable_node
node_of cli_show_vlan = enable_node
node_of cli_show_vlan_id = enable_node
node_of cli_vlan_admin = vlan_node
node_of cli_no_vlan_admin = vlan_node
node_of cli_intf_vlan_access = interface_node
node_of cli_intf_no_vlan_access = interface_node
node_of cli_intf_no_vlan_access_val = interface_node
node_of cli_intf_vlan_trunk_allowed = interface_node
node_of cli_intf_no_vlan_trunk_allowed = interface_node
node_of cli_intf_vlan_trunk_native = interface_node
node_of cli_intf_no_vlan_trunk_native = interface_node
node_of cli_intf_vlan_trunk_native_tag = interface_node
node_of cli_intf_no_vlan_trunk_native_tag = interface_node
node_of cli_lag_vlan_access = link_aggregation_node
node_of cli_lag_no_vlan_access = link_aggregation_node
node_of cli_lag_vlan_trunk_allowed = link_aggregation_node
node_of cli_lag_no_vlan_trunk_allowed = link_aggregation_node
node_of cli_lag_vlan_trunk_native = link_aggregation_node
node_of cli_lag_no_vlan_trunk_native = link_aggregation_node
node_of cli_lag_vlan_trunk_native_tag = link_aggregation_node
node_of cli_lag_no_vlan_trunk_native_tag = link_aggregation_node

-- Every command is installed once, in the node of what it works on, whether or not the callback can be
-- installed.
cli_post_init-once :
    (ok : Callback → Bool) (e : Element) → nodes_of e (cli_post_init ok).0 ≡ node_of e ∷ []
unfolding cli_post_init
cli_post_init-once ok vtysh_exit_interface = refl
cli_post_init-once ok vtysh_end_all = refl
cli_post_init-once ok config_exit = refl
cli_post_init-once ok config_end = refl
cli_post_init-once ok vtysh_interface_vlan = refl
cli_post_init-once ok no_vtysh_interface_vlan = refl
cli_post_init-once ok vtysh_vlan = refl
cli_post_init-once ok vtysh_no_vlan = refl
cli_post_init-once ok cli_vlan_int_range_add = refl
cli_post_init-once ok cli_vlan_int_range_del = refl
cli_post_init-once ok cli_vlan_int_range_del_arg = refl
cli_post_init-once ok cli_show_vlan_int_range = refl
cli_post_init-once ok cli_show_vlan_summary = refl
cli_post_init-once ok cli_show_vlan = refl
cli_post_init-once ok cli_show_vlan_id = refl
cli_post_init-once ok cli_vlan_admin = refl
cli_post_init-once ok cli_no_vlan_admin = refl
cli_post_init-once ok cli_intf_vlan_access = refl
cli_post_init-once ok cli_intf_no_vlan_access = refl
cli_post_init-once ok cli_intf_no_vlan_access_val = refl
cli_post_init-once ok cli_intf_vlan_trunk_allowed = refl
cli_post_init-once ok cli_intf_no_vlan_trunk_allowed = refl
cli_post_init-once ok cli_intf_vlan_trunk_native = refl
cli_post_init-once ok cli_intf_no_vlan_trunk_native = refl
cli_post_init-once ok cli_intf_vlan_trunk_native_tag = refl
cli_post_init-once ok cli_intf_no_vlan_trunk_native_tag = refl
cli_post_init-once ok cli_lag_vlan_access = refl
cli_post_init-once ok cli_lag_no_vlan_access = refl
cli_post_init-once ok cli_lag_vlan_trunk_allowed = refl
cli_post_init-once ok cli_lag_no_vlan_trunk_allowed = refl
cli_post_init-once ok cli_lag_vlan_trunk_native = refl
cli_post_init-once ok cli_lag_no_vlan_trunk_native = refl
cli_post_init-once ok cli_lag_vlan_trunk_native_tag = refl
cli_post_init-once ok cli_lag_no_vlan_trunk_native_tag = refl
