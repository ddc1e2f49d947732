-- ===== src/Cache/Frame/Ports.antt =====
-- What `update_port_cache` may write.
use vland.Common.{ℕ, ◌≡◌, refl, some, arith, put, String}
use vland.External.{Env}
use vland.State.{VlanData, State}
use vland.State.Loop.{>>=-eq-some}
use vland.Vlan.{handle_vlan_config}
use vland.Cache.{configure, refresh, update_port_cache}
use vland.Cache.Steps.{PortRule, update_port_cache-rel}
use vland.Cache.Frame.{Kept, Kept-refl, Kept-same, Kept-trans, Kept-then, Kept-once, handle-Kept}

module _ (E : Env) where
  open E use {bitmaps}
  open bitmaps use {Bitmap}

  configure-Kept :
      (k : String) (vlan : VlanData) (s t : State Bitmap) (n : ℕ)
      → configure E k vlan s ≡ some (t, n)
      → Kept E s t n
  unfolding configure
  configure-Kept k vlan s t n e =
      let ((db, v, m), e1, last) = >>=-eq-some (handle_vlan_config E s.idl vlan.idl_cfg vlan) _ e in
      let p : t ≡ record s { idl = db; all_vlans = put k v s.all_vlans } = ground (arith) in
      let q : n ≡ m = ground (arith) in
      rw (p, q) (handle-Kept E s vlan.idl_cfg vlan db v m (put k v s.all_vlans) e1)

  refresh-Kept :
      (k : String) (vlan : VlanData) (s : State Bitmap) → Kept E s (refresh E k vlan s).0 0
  unfolding refresh
  refresh-Kept k vlan s = Kept-same E s _ refl refl refl refl

  refresh-configure-Kept :
      (k : String) (vlan : VlanData) (s t : State Bitmap) (n : ℕ)
      → configure E k (refresh E k vlan s).1 (refresh E k vlan s).0 ≡ some (t, n)
      → Kept E s t n
  refresh-configure-Kept k vlan s t n e =
      Kept-then E s (refresh E k vlan s).0 t n (refresh-Kept k vlan s) (configure-Kept k _ _ t n e)

  pub Kept-rule : PortRule E (Kept E)
  Kept-rule = record {
    nothing = Kept-refl E;
    chain = Kept-trans E;
    ports = λ s p. Kept-same E s (record s { all_ports = p }) refl refl refl refl;
    refreshed = λ vid k vlan s f. refresh-Kept k vlan s;
    configured = λ vid k vlan s t n f e. refresh-configure-Kept k vlan s t n e;
    counted = Kept-once E;
  }

  -- `update_port_cache` writes nothing to the database but the status columns of VLAN rows, writes
  -- nothing at all if it returns 0, and leaves the sequence number and the two flags alone.
  pub update_port_cache-Kept :
      (s t : State Bitmap) (n : ℕ) → update_port_cache E s ≡ some (t, n) → Kept E s t n
  update_port_cache-Kept = update_port_cache-rel E Kept-rule
