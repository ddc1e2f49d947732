-- ===== src/Lib.antt =====
-- ops-vland, the VLAN daemon of OpenSwitch, and its command line.
--
-- The daemon (src/vland_ovsdb_if.c) keeps a cache of the Port and VLAN tables of the switch's
-- database, computes for each VLAN an operational state with a reason, and writes both back. The
-- modules follow it from the bottom up:
--   Idl       the rows of the database as the daemon's replica shows them, and reads and writes
--             through references to VLAN rows;
--   External  what the sources call and do not contain, as parameters with their documented laws:
--             the schema's strings, bitmap.h and vlan-bitmap.h, shash.h, and the IDL's change flags;
--   State     struct port_data, struct vlan_data, the file's static variables, and its loops;
--   Text      vlan_mode_to_str and its siblings, and the reading of the mode and admin columns;
--   Port      check_port_in_bridge, construct_vlan_bitmap, add_new_port;
--   Vlan      vlan_lookup_by_vid, parse_vlan_data, update_vlan_membership,
--             vland_default_vlan_member_port, calc_vlan_op_state_n_reason, handle_vlan_config,
--             add_new_vlan, del_old_vlan;
--   Cache     del_old_port, update_port_cache, update_vlan_cache;
--   Run       create_default_vlan, vland_chk_for_system_configured, vland_reconfigure, vland_run; in
--             its children main of src/vland.c: Start its options and commands, and Main its loop; Dump
--             has vland_debug_dump and l2vlan_diag_dump_callback, and Columns the tables and columns that
--             vland_ovsdb_init has the IDL keep;
--   Samples   a concrete environment and database, at which the tests run the code.
--
-- The command line (src/cli/vlan_vty.c) edits the same database, one transaction to a command. Cli has
-- the tables it reads and writes, the functions of vtysh as a parameter, and the edits of a port's
-- row. Its children follow the commands: Lag the eight cli_lag_* commands, Intf the cli_intf_*
-- commands, Trunk the one that takes a range of VLANs, Internal the commands on the range for internal
-- use, Shutdown those on a VLAN's administrative state, Create vtysh_vlan, vtysh_no_vlan,
-- vtysh_interface_vlan and no_vtysh_interface_vlan, Show the displays, Sort the order by VLAN ID, and
-- Install the set-up of the commands, cli_pre_init and cli_post_init. Config has the callbacks of
-- src/cli/vtysh_ovsdb_vlan_context.c, which print the running configuration as commands; its children
-- run the printed commands again by the functions of Intf and Trunk. A command's result says what it
-- prints and what it hands to cli_do_config_finish; it is a fault where it reads through NULL or past
-- what it wrote, or where ops_port_get_tag faults, which it may at NULL or without a tag. Search tells
-- the search for an interface's port apart from the commands that make it. A VLAN ID or a list of them
-- is the parsed argument. Laws has what the theorems assume of vtysh, Hoare the rules for what a
-- command hands in, and Edit the edits of a row.
--
-- Each function returns the new state; in a chain `none` is a fault, a read through a NULL or dangling
-- pointer. A pointer to a VLAN row is the row's uuid, and a pointer into a table of names the name of
-- its node. A table of names is the list of its nodes in the order in which loops visit them, and
-- where a new node goes is a parameter; so are qsort and the order of interface names. A loop is a
-- recursion on the list that it runs over; no definition takes fuel. VLAN IDs are natural numbers,
-- with their bounds stated where they matter; a port's native VLAN is an integer, -1 if there is none.
-- What the IDL does between two turns (the received database, the lock, the outcome of transactions)
-- is the input `Turn`.
--
-- The main loop runs over a list of rounds, each with the IDL's part of a turn and the commands of
-- ovs-appctl that it finds: it ends, or polls after the last one.
--
-- The invariants that span turns are in Cache/Identity, Cache/Registry and Run/Registry, and what a
-- turn writes back to the VLAN rows is in Cache/Display, Run/Display and, where its transactions take
-- effect, Run/Committed; Cache/Steps has the rule by which an invariant passes through the loops of
-- the port cache. Run/Retry has the turns that follow one whose transaction may have failed, and
-- Run/Orderly the runs on a database whose VLAN rows have the names of their IDs and are not replaced
-- by others of their names, which is how the command line writes them.
--
-- Not modelled: logging, memory release, the text of a printed line beside the values in it, the text of
-- usage, daemonising and the options of the daemon and logging libraries, which are calls of platform
-- libraries; and the Python tests and validation plugin.
pub mod Common
pub mod Idl
pub mod External
pub mod State
pub mod Text
pub mod Port
pub mod Vlan
pub mod Cache
pub mod Run
pub mod Cli
pub mod Samples
