-- ===== src/Idl.antt =====
-- The OVSDB tables as the daemon's replica shows them: the columns of System, Bridge, Port and VLAN
-- that src/vland_ovsdb_if.c reads or writes. The rows' C types are generated from the schema; a
-- reference to a row is that row's `uuid`, or its name where only the name is read through it.
mod Rows
mod Tables
pub use Rows.*
pub use Tables.*
