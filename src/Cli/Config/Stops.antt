-- ===== src/Cli/Config/Stops.antt =====
-- `vlan trunk allowed` with a range that comes to a VLAN which is allowed already.
