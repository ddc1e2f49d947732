-- ===== src/Run/Reconfigure.antt =====
-- What `vland_reconfigure` and a turn of the daemon write.
use vland.Common.{ℕ, ◌+◌, ◌≡◌, refl, some, arith, ◌==◌, Bool-cases, inl, inr}
use vland.External.{Env}
use vland.State.{State}
use vland.State.Loop.{>>=-eq-some}
use vland.Cache.{once, update_port_cache, update_vlan_cache}
use vland.Cache.Frame.{StatusOnly, Kept, Kept-once, Kept-trans, Kept-refl}
use vland.Cache.Frame.Ports.{update_port_cache-Kept}
use vland.Cache.Frame.Vlans.{update_vlan_cache-Kept}
use vland.Run.{update_caches, vland_reconfigure}

module _ (E : Env) where
  open E use {bitmaps}
  open bitmaps use {Bitmap}

  update_caches_lem :
      (q : ℕ) (s t : State Bitmap) (n : ℕ)
      → update_caches E q s ≡ some (t, n)
      → Kept E s (record t { idl_seqno = s.idl_seqno }) n × (t.idl_seqno ≡ q)
  unfolding update_caches
  update_caches_lem q s t n e =
      let ((s1, m), e1, rest) = >>=-eq-some (update_port_cache E s) _ e in
      let ((s2, k), e2, last) = >>=-eq-some (update_vlan_cache E s1) _ rest in
      let ports = Kept-once E s s1 m (update_port_cache-Kept E s s1 m e1) in
      let vlans = Kept-once E s1 s2 k (update_vlan_cache-Kept E s1 s2 k e2) in
      let kept = Kept-trans E s s1 s2 (once m) (once k) ports vlans in
      let p : t ≡ record s2 { idl_seqno = q } = ground arith in
      let c : n ≡ once m + once k = ground arith in
      (
        rw (p, c)
            (record {
              db = kept.db;
              quiet = kept.quiet;
              seqno = refl;
              configured = kept.configured;
              created = kept.created;
            }),
        ground arith,
      )

  -- What `vland_reconfigure` has done when it returns `n`.
  pub record Reconfigured (s t : State Bitmap) (n : ℕ) : Type 0 where
    pub db : StatusOnly s.idl t.idl
    pub quiet : n ≡ 0 → t.idl ≡ s.idl
    pub idle : s.idl.seqno ≡ s.idl_seqno → (t ≡ s) × (n ≡ 0)
    pub seqno : t.idl_seqno ≡ s.idl.seqno
    pub configured : t.system_configured ≡ s.system_configured
    pub created : t.default_vlan_created ≡ s.default_vlan_created

  -- `vland_reconfigure` writes nothing to the database but the three status columns of VLAN rows. If
  -- it returns 0 the database is untouched, so that no write is lost when the transaction is dropped.
  -- With no change in the database since the last call it does nothing at all. Its sequence number
  -- is that of the database at its start, and the two flags stay.
  pub vland_reconfigure_lem :
      (s t : State Bitmap) (n : ℕ) → vland_reconfigure E s ≡ some (t, n) → Reconfigured s t n
  unfolding vland_reconfigure
  vland_reconfigure_lem s t n e = elim (Bool-cases (s.idl.seqno == s.idl_seqno)) [
    | inl same ↦
        let p : t ≡ s = ground arith in
        let c : n ≡ 0 = ground arith in
        let stay = Kept-refl E s in
        rw (p, c)
          (record {
            db = stay.db;
            quiet = λ _. refl;
            idle = λ _. (refl, refl);
            seqno = ground arith;
            configured = refl;
            created = refl;
          })
    | inr changed ↦
        let (kept, q) = update_caches_lem s.idl.seqno s t n (ground arith) in
        record {
          db = kept.db;
          quiet = kept.quiet;
          idle = λ h. absurd (ground arith);
          seqno = q;
          configured = kept.configured;
          created = kept.created;
        }
  ]

  -- A second call right after the first does nothing and returns 0.
  pub vland_reconfigure_again :
      (s t : State Bitmap) (n : ℕ)
      → vland_reconfigure E s ≡ some (t, n)
      → vland_reconfigure E t ≡ some (t, 0)
  vland_reconfigure_again s t n e =
      let r = vland_reconfigure_lem s t n e in
      let q : t.idl.seqno ≡ t.idl_seqno = ground (arith, r.db.rest, r.seqno) in
      unfold vland_reconfigure in ground (arith)
