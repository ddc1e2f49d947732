-- ===== src/Run/Mirror.antt =====
-- The caches against the database after a turn of the daemon, and in every state that it can reach.
use vland.Common.{
  ℕ, String, ◌≡◌, ◌≢◌, ◌⊎◌, ◌||◌, refl, Bool, true, false, ◌&&◌, not, some, List, [], ◌∷◌, ◌==◌,
  arith, str_eq, eq_iff, find, Unique, is_some, if◌then◌else◌, All₂, Bool-cases, inl, inr,
}
use mathlib.Core.Path.{subst}
use vland.Idl.{Db, VlanRow}
use vland.External.{Env, LinkLaws}
use vland.State.{State}
use vland.State.Loop.{>>=-eq-some}
use vland.Cache.{update_port_cache, update_vlan_cache}
use vland.Cache.Mirror.{has_name, update_vlan_cache_lem}
use vland.Cache.Ports.{has_port, update_port_cache_lem}
use vland.Cache.Ports.Names.{Unique-names, is_some-find-names}
use vland.Cache.Vlans.{names-update_vlan_cache}
use vland.Cache.Frame.{SameConfig}
use vland.Cache.Frame.Ports.{update_port_cache-Kept}
use vland.Vlan.{default_vid, has_vlan_id}
use vland.Run.{
  Turn, update_caches, vland_reconfigure, vland_chk_for_system_configured, create_default_vlan,
  transact, locked_run, vland_run, is_configured,
}

has_name-SameConfig :
    (k : String) (rows rows' : List VlanRow)
    → All₂ SameConfig rows rows'
    → has_name k rows' ≡ has_name k rows
has_name-SameConfig k [] [] h = refl
has_name-SameConfig k (r ∷ rows) (r' ∷ rows') h =
    ground (arith, h.0, has_name-SameConfig k rows rows' h.1)
has_name-SameConfig k [] (r ∷ rows) h = absurd h
has_name-SameConfig k (r ∷ rows) [] h = absurd h

module _ (E : Env) where
  open E use {bitmaps, strings}
  open bitmaps use {Bitmap}

  -- One node to a name, and none for the default bridge's own port.
  pub record IsTidy (s : State Bitmap) : Type 0 where
    pub ports : Unique s.all_ports
    pub vlans : Unique s.all_vlans
    pub no_bridge : is_some (find strings.default_bridge_name s.all_ports) ≡ false

  -- The caches have the names of the tables.
  pub record Mirrors (db : Db) (s : State Bitmap) : Type 0 where
    pub ports :
        (k : String)
        → is_some (find k s.all_ports)
          ≡ (has_port k db.ports && not (str_eq k strings.default_bridge_name))
    pub vlans : (k : String) → is_some (find k s.all_vlans) ≡ has_name k db.vlans

  -- The state from which a turn with the lock updates the caches.
  abbrev pub settled : Turn → State Bitmap → State Bitmap
  settled t s =
      let s1 = vland_chk_for_system_configured E s in
      if s1.default_vlan_created then s1 else (create_default_vlan E t s1).0

  -- What a turn finds out before it looks at the caches, where the system is configured and has its
  -- default VLAN.
  pub settled-idl :
      (t : Turn) (s : State Bitmap)
      → (s.default_vlan_created ≡ true) ⊎ (has_vlan_id default_vid s.idl.vlans ≡ true)
      → ((settled t s).idl ≡ s.idl) × ((settled t s).idl_seqno ≡ s.idl_seqno)
  unfolding vland_chk_for_system_configured create_default_vlan
  settled-idl t s d = ground arith

  pub chk-configured :
      (s : State Bitmap)
      → (s.system_configured ≡ true) ⊎ (is_configured s.idl.system ≡ true)
      → (vland_chk_for_system_configured E s).system_configured ≡ true
  unfolding vland_chk_for_system_configured
  chk-configured s c = ground arith

  module _ (L : LinkLaws E) where
    update_caches-Mirrors :
        (q : ℕ) (s t : State Bitmap) (n : ℕ)
        → IsTidy s
        → update_caches E q s ≡ some (t, n)
        → IsTidy t × Mirrors s.idl t × (t.idl_seqno ≡ q)
    unfolding update_caches
    update_caches-Mirrors q s t n tidy e =
        let ((s1, m), e1, rest) = >>=-eq-some (update_port_cache E s) _ e in
        let ((s2, k), e2, last) = >>=-eq-some (update_vlan_cache E s1) _ rest in
        let p : t ≡ record s2 { idl_seqno = q } = ground arith in
        let mirrored = update_port_cache_lem E L s s1 m tidy.ports e1 in
        let kept = update_port_cache-Kept E s s1 m e1 in
        let (u, j, e3, unique, cached) =
          update_vlan_cache_lem E L s1 (mirrored.unique_vlans tidy.vlans) in
        let same : u ≡ s2 = ground arith in
        let ported = names-update_vlan_cache E s1 s2 k e2 in
        let rows = kept.db.rows in
        let listed : (x : String) → is_some (find x s2.all_vlans) ≡ has_name x s.idl.vlans = λ x.
          ground (arith, same, cached x, has_name-SameConfig x s.idl.vlans s1.idl.vlans rows) in
        let members : (x : String)
            → is_some (find x s2.all_ports)
              ≡ (has_port x s.idl.ports && not (str_eq x strings.default_bridge_name)) =
          λ x. ground (
            arith,
            is_some-find-names x s1.all_ports s2.all_ports ported,
            mirrored.ports x,
            tidy.no_bridge,
            eq_iff x strings.default_bridge_name,
          ) in
        rw p (
          record {
            ports = Unique-names s1.all_ports s2.all_ports ported mirrored.unique_ports;
            vlans = subst (λ x. Unique x.all_vlans) same unique;
            no_bridge = ground (
              arith,
              members strings.default_bridge_name,
              eq_iff strings.default_bridge_name strings.default_bridge_name,
            );
          },
          record { ports = members; vlans = listed },
          refl,
        )

    vland_reconfigure-Mirrors :
        (s t : State Bitmap) (n : ℕ)
        → IsTidy s
        → vland_reconfigure E s ≡ some (t, n)
        → IsTidy t × (s.idl.seqno ≢ s.idl_seqno → Mirrors s.idl t × (t.idl_seqno ≡ s.idl.seqno))
    unfolding vland_reconfigure
    vland_reconfigure-Mirrors s t n tidy e = elim (Bool-cases (s.idl.seqno == s.idl_seqno)) [
      | inl same ↦ let p : t ≡ s = ground arith in rw p (tidy, λ ne. absurd (ne (ground arith)))
      | inr changed ↦
          let (a, b, c) = update_caches-Mirrors s.idl.seqno s t n tidy (ground arith) in
          (a, λ ne. (b, c))
    ]

    transact-Mirrors :
        (t : Turn) (s s' : State Bitmap)
        → IsTidy s
        → transact E t s ≡ some s'
        → IsTidy s' × (s.idl.seqno ≢ s.idl_seqno → Mirrors s.idl s' × (s'.idl_seqno ≡ s.idl.seqno))
    unfolding transact
    transact-Mirrors t s s' tidy e =
        let ((u, n), e1, last) = >>=-eq-some (vland_reconfigure E s) _ e in
        let p : s' ≡ record u { idl = if n == 0 then s.idl else t.after_commit s.idl u.idl } =
          ground arith in
        let (a, b) = vland_reconfigure-Mirrors s u n tidy e1 in
        rw p (
          record { ports = a.ports; vlans = a.vlans; no_bridge = a.no_bridge },
          λ ne. let (c, d) = b ne in (record { ports = c.ports; vlans = c.vlans }, d),
        )

    create_default_vlan-IsTidy :
        (t : Turn) (s : State Bitmap) → IsTidy s → IsTidy (create_default_vlan E t s).0
    create_default_vlan-IsTidy t s h =
        let same : ((create_default_vlan E t s).0.all_ports ≡ s.all_ports)
            × ((create_default_vlan E t s).0.all_vlans ≡ s.all_vlans) =
          unfold create_default_vlan in ground arith in
        record {
          ports = ground (arith, same.0, h.ports);
          vlans = ground (arith, same.1, h.vlans);
          no_bridge = ground (arith, same.0, h.no_bridge);
        }

    chk-IsTidy : (s : State Bitmap) → IsTidy s → IsTidy (vland_chk_for_system_configured E s)
    chk-IsTidy s h =
        let same : ((vland_chk_for_system_configured E s).all_ports ≡ s.all_ports)
            × ((vland_chk_for_system_configured E s).all_vlans ≡ s.all_vlans) =
          unfold vland_chk_for_system_configured in ground arith in
        record {
          ports = ground (arith, same.0, h.ports);
          vlans = ground (arith, same.1, h.vlans);
          no_bridge = ground (arith, same.0, h.no_bridge);
        }

    if-IsTidy : (b : Bool) (x y : State Bitmap) → IsTidy x → IsTidy y → IsTidy (if b then x else y)
    if-IsTidy true x y h k = h
    if-IsTidy false x y h k = k

    pub settled-IsTidy : (t : Turn) (s : State Bitmap) → IsTidy s → IsTidy (settled t s)
    settled-IsTidy t s h =
        let s1 = vland_chk_for_system_configured E s in
        if-IsTidy s1.default_vlan_created s1 (create_default_vlan E t s1).0 (chk-IsTidy s h)
          (create_default_vlan-IsTidy t s1 (chk-IsTidy s h))

    locked_run-IsTidy :
        (t : Turn) (s s' : State Bitmap) → IsTidy s → locked_run E t s ≡ some s' → IsTidy s'
    unfolding locked_run
    locked_run-IsTidy t s s' h e =
        let s1 = vland_chk_for_system_configured E s in
        elim (Bool-cases s1.system_configured) [
          | inl c ↦ (transact-Mirrors t (settled t s) s' (settled-IsTidy t s h) (ground arith)).0
          | inr c ↦ let p : s' ≡ s1 = ground arith in rw p (chk-IsTidy s h)
        ]

    -- A turn that does not fault keeps the caches with one node to a name and without the default
    -- bridge's own port.
    pub vland_run-IsTidy :
        (t : Turn) (s s' : State Bitmap) → IsTidy s → vland_run E t s ≡ some s' → IsTidy s'
    unfolding vland_run
    vland_run-IsTidy t s s' h e =
        let s1 = record s { idl = t.received } in
        let h1 : IsTidy s1 = record { ports = h.ports; vlans = h.vlans; no_bridge = h.no_bridge } in
        elim (Bool-cases (t.is_lock_contended || not t.has_lock)) [
          | inl out ↦ let p : s' ≡ s1 = ground arith in rw p h1
          | inr held ↦ locked_run-IsTidy t s1 s' h1 (ground arith)
        ]

    pub vland_run-Mirrors :
        (t : Turn) (s s' : State Bitmap)
        → IsTidy s
        → t.is_lock_contended ≡ false
        → t.has_lock ≡ true
        → (s.system_configured ≡ true) ⊎ (is_configured t.received.system ≡ true)
        → (s.default_vlan_created ≡ true) ⊎ (has_vlan_id default_vid t.received.vlans ≡ true)
        → t.received.seqno ≢ s.idl_seqno
        → vland_run E t s ≡ some s'
        → Mirrors t.received s' × (s'.idl_seqno ≡ t.received.seqno)
    unfolding vland_run locked_run
    vland_run-Mirrors t s s' h free held c d ne e =
        let s1 = record s { idl = t.received } in
        let h1 : IsTidy s1 = record { ports = h.ports; vlans = h.vlans; no_bridge = h.no_bridge } in
        let s2 = settled t s1 in
        let (a, b) = settled-idl t s1 d in
        let run : transact E t s2 ≡ some s' = ground (arith, chk-configured s1 c) in
        let whole =
          (transact-Mirrors t s2 s' (settled-IsTidy t s1 h1) run).1 (ground (arith, a, b)) in
        subst (λ db. Mirrors db s' × (s'.idl_seqno ≡ db.seqno)) a whole
