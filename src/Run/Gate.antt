-- ===== src/Run/Gate.antt =====
-- When a turn of the daemon acts at all.
use vland.Common.{◌≡◌, ◌⊎◌, true, false, some, arith, if◌then◌else◌}
use vland.External.{Env}
use vland.State.{State}
use vland.State.Loop.{>>=-eq-some}
use vland.Run.{
  Turn, is_configured, vland_reconfigure, vland_chk_for_system_configured, create_default_vlan,
  transact, locked_run, vland_run,
}
use vland.Run.Reconfigure.{vland_reconfigure_lem}

module _ (E : Env) where
  open E use {bitmaps}
  open bitmaps use {Bitmap}

  -- While another process has the lock, or this one has not got it, or the system was not yet
  -- configured and still is not, a turn takes over the received database and changes nothing else.
  pub vland_run_waits :
      (t : Turn) (s : State Bitmap)
      → (t.is_lock_contended ≡ true)
        ⊎ (t.has_lock ≡ false)
        ⊎ ((s.system_configured ≡ false) × (is_configured t.received.system ≡ false))
      → vland_run E t s ≡ some (record s { idl = t.received })
  unfolding vland_run vland_chk_for_system_configured
  vland_run_waits t s h = ground arith

  -- A turn in a configured system that has its default VLAN takes over a database of the sequence number
  -- that was handled last, and changes nothing else.
  pub vland_run_idle :
      (t : Turn) (s : State Bitmap)
      → s.system_configured ≡ true
      → s.default_vlan_created ≡ true
      → t.received.seqno ≡ s.idl_seqno
      → vland_run E t s ≡ some (record s { idl = t.received })
  unfolding vland_run vland_chk_for_system_configured vland_reconfigure
  vland_run_idle t s f d q = ground arith

  create_default_vlan-flags :
      (t : Turn) (s : State Bitmap)
      → ((create_default_vlan E t s).0.system_configured ≡ s.system_configured)
        × (s.default_vlan_created ≡ true
            → (create_default_vlan E t s).0.default_vlan_created ≡ true)
  unfolding create_default_vlan
  create_default_vlan-flags t s = ground arith

  transact-flags :
      (t : Turn) (s s' : State Bitmap)
      → transact E t s ≡ some s'
      → (s'.system_configured ≡ s.system_configured)
        × (s'.default_vlan_created ≡ s.default_vlan_created)
  unfolding transact
  transact-flags t s s' e =
      let ((u, n), e1, last) = >>=-eq-some (vland_reconfigure E s) _ e in
      let r = vland_reconfigure_lem E s u n e1 in ground (arith, r.configured, r.created)

  locked_run-flags :
      (t : Turn) (s s' : State Bitmap)
      → locked_run E t s ≡ some s'
      → (s.system_configured ≡ true → s'.system_configured ≡ true)
        × (s.default_vlan_created ≡ true → s'.default_vlan_created ≡ true)
  unfolding locked_run vland_chk_for_system_configured
  locked_run-flags t s s' e =
      let s1 = vland_chk_for_system_configured E s in
      let s2 = if s1.default_vlan_created then s1 else (create_default_vlan E t s1).0 in
      ground (arith, transact-flags t s2 s', create_default_vlan-flags t s1)

  -- The two flags only ever go up: once the system was seen configured, and once the default VLAN
  -- was seen or created, every later turn that does not fault keeps it so.
  pub vland_run-flags :
      (t : Turn) (s s' : State Bitmap)
      → vland_run E t s ≡ some s'
      → (s.system_configured ≡ true → s'.system_configured ≡ true)
        × (s.default_vlan_created ≡ true → s'.default_vlan_created ≡ true)
  unfolding vland_run
  vland_run-flags t s s' e = ground (arith, locked_run-flags t (record s { idl = t.received }) s')
