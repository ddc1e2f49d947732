-- ===== src/Cli/Own.antt =====
-- The commands of an interface whose own port is the only one that has it.
use vland.Common.{
  String, ◌≡◌, refl, true, false, ◌⊎◌, inl, inr, Option, some, List, [], ◌∷◌, ◌==◌, str_eq, All,
  arith,
}
use vland.Cli.{PortRow, InterfaceRow, Message, Tables, Vtysh, go, put_port}
use vland.Cli.Intf.{refers, select_port, find_interface, own_port}

-- `row` is the one port that has the interface, and the first of its uuid.
abbrev pub IsSole : Option InterfaceRow → PortRow → List PortRow → Type 0
IsSole intf row [] = ⊥
IsSole intf row (p ∷ ps) =
    ((p ≡ row) × All (λ q. refers intf q ≡ false) ps)
    ⊎ ((refers intf p ≡ false) × ((p.uuid == row.uuid) ≡ false) × IsSole intf row ps)

module _ (intf : Option InterfaceRow) (ifname : String) where
  select_port-none :
      (said : PortRow → List Message) (ps : List PortRow) (found : Option PortRow)
      → All (λ q. refers intf q ≡ false) ps
      → select_port intf ifname said ps found ≡ go found
  unfolding select_port
  select_port-none said [] found h = refl
  select_port-none said (p ∷ ps) found h = ground (arith, select_port-none said ps found h.1)

  pub select_port-IsSole :
      (said : PortRow → List Message) (row : PortRow) (ps : List PortRow) (found : Option PortRow)
      → refers intf row ≡ true
      → str_eq row.name ifname ≡ true
      → IsSole intf row ps
      → select_port intf ifname said ps found ≡ go (some row)
  unfolding select_port
  select_port-IsSole said row [] found r n h = absurd h
  select_port-IsSole said row (p ∷ ps) found r n (inl (e, rest)) =
      rw e (rw (r, n) (select_port-none said ps (some row) rest))
  select_port-IsSole said row (p ∷ ps) found r n (inr (other, _, rest)) =
      rw other (select_port-IsSole said row ps found r n rest)

pub put_port-IsSole :
    (intf : Option InterfaceRow) (row row' : PortRow) (ps : List PortRow)
    → row'.uuid ≡ row.uuid
    → IsSole intf row ps
    → IsSole intf row' (put_port row' ps)
put_port-IsSole intf row row' [] e h = h
put_port-IsSole intf row row' (p ∷ ps) e (inl (same, rest)) =
    let own : (p.uuid == row'.uuid) ≡ true = ground (arith, same) in rw own (inl (refl, rest))
put_port-IsSole intf row row' (p ∷ ps) e (inr (other, ne, rest)) =
    let foreign : (p.uuid == row'.uuid) ≡ false = ground arith in
    rw foreign (inr (other, foreign, put_port-IsSole intf row row' ps e rest))

pub put_port-put_port :
    (a b : PortRow) (ps : List PortRow)
    → b.uuid ≡ a.uuid
    → put_port b (put_port a ps) ≡ put_port b ps
put_port-put_port a b [] e = refl
put_port-put_port a b (p ∷ ps) e = ground (arith, put_port-put_port a b ps)

pub put_port-same :
    (intf : Option InterfaceRow) (row : PortRow) (ps : List PortRow)
    → IsSole intf row ps
    → put_port row ps ≡ ps
put_port-same intf row [] h = refl
put_port-same intf row (p ∷ ps) (inl (e, _)) = ground (arith, e)
put_port-same intf row (p ∷ ps) (inr (_, ne, rest)) =
    ground (arith, ne, put_port-same intf row ps rest)

module _ (X : Vtysh) (db : Tables) (ifname : String) where
  -- The search for the own port finds it.
  pub own_port-IsSole :
      (row : PortRow) (ps : List PortRow) (found : Option PortRow)
      → refers (find_interface ifname db.interfaces) row ≡ true
      → str_eq row.name ifname ≡ true
      → IsSole (find_interface ifname db.interfaces) row ps
      → own_port X (record db { ports = ps }) ifname found ≡ go (record db { ports = ps }, some row)
  unfolding own_port
  own_port-IsSole row [] found r n h = absurd h
  own_port-IsSole row (p ∷ ps) found r n h =
      rw
        (select_port-IsSole (find_interface ifname db.interfaces) ifname _ row (p ∷ ps) found r n h)
