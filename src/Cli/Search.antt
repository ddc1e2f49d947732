-- ===== src/Cli/Search.antt =====
-- The search for an interface's own port in src/cli/vlan_vty.c.
use vland.Common.{
  String, str_eq, ◌≡◌, refl, ◌≢◌, Bool, true, false, Option, some, List, [], ◌∷◌, if◌then◌else◌,
  arith, eq_iff, Bool-cases, Option-cases, inl, inr, is_some, none, not, ◌&&◌, ◌||◌, ◌⊎◌,
}
use vland.Cli.{PortRow, InterfaceRow, Tables, Vtysh, Message, go, abort, part_of_lag}
use vland.Cli.Intf.{refers, is_empty, find_interface, select_port, own_port}

-- A port of another name has the interface.
abbrev pub is_elsewhere : Option InterfaceRow → String → List PortRow → Bool
is_elsewhere intf ifname [] = false
is_elsewhere intf ifname (row ∷ rows) =
    refers intf row && not (str_eq row.name ifname) || is_elsewhere intf ifname rows

-- The last port that has the interface.
abbrev pub last_port : Option InterfaceRow → List PortRow → Option PortRow → Option PortRow
last_port intf [] found = found
last_port intf (row ∷ rows) found =
    last_port intf rows (if refers intf row then some row else found)

module _ (intf : Option InterfaceRow) (ifname : String) (said : PortRow → List Message) where
  select_port-go :
      (rows : List PortRow) (found : Option PortRow)
      → is_elsewhere intf ifname rows ≡ false
      → select_port intf ifname said rows found ≡ go (last_port intf rows found)
  unfolding select_port
  select_port-go [] found e = refl
  select_port-go (row ∷ rows) found e =
      ground (arith, select_port-go rows (if refers intf row then some row else found))

  select_port-abort :
      (rows : List PortRow) (found : Option PortRow)
      → is_elsewhere intf ifname rows ≡ true
      → (row : PortRow) × (row.name ≢ ifname)
        × (refers intf row ≡ true)
        × (select_port intf ifname said rows found ≡ abort (said row))
  unfolding select_port
  select_port-abort [] found e = ground arith
  select_port-abort (row ∷ rows) found e =
      elim (Bool-cases (refers intf row && not (str_eq row.name ifname))) [
        | inl here ↦ (row, ground (arith, eq_iff row.name ifname), ground arith, rw here refl)
        | inr there ↦
            let (other, ne, has, stops) =
              select_port-abort rows (if refers intf row then some row else found) (ground arith) in
            (other, ne, has, rw there stops)
      ]

  -- The search aborts exactly if a port of another name has the interface, with what there is to say
  -- about such a port. Otherwise it yields the last port that has the interface, or what it started
  -- with.
  pub select_port_lem :
      (rows : List PortRow) (found : Option PortRow)
      → ((is_elsewhere intf ifname rows ≡ true)
          × (row : PortRow) × (row.name ≢ ifname)
          × (refers intf row ≡ true)
          × (select_port intf ifname said rows found ≡ abort (said row)))
        ⊎ ((is_elsewhere intf ifname rows ≡ false)
            × (select_port intf ifname said rows found ≡ go (last_port intf rows found)))
  select_port_lem rows found = elim (Bool-cases (is_elsewhere intf ifname rows)) [
    | inl e ↦
        let (row, ne, has, stops) = select_port-abort rows found e in inl (e, row, ne, has, stops)
    | inr e ↦ inr (e, select_port-go rows found e)
  ]

ports-cases :
    (ps : List PortRow) → (ps ≡ []) ⊎ ((p : PortRow) × (qs : List PortRow) × (ps ≡ p ∷ qs))
ports-cases [] = inl refl
ports-cases (p ∷ ps) = inr (p, ps, refl)

module _ (X : Vtysh) (db : Tables) (ifname : String) where
  -- A port of another name has the interface of the name.
  abbrev pub is_in_lag : Bool
  is_in_lag = is_elsewhere (find_interface ifname db.interfaces) ifname db.ports

  -- The tables and the port or NULL, where a port is added: `port_check_and_add` is called, and where
  -- there was no port at all and this call returned NULL, once more.
  abbrev pub added : Tables × Option PortRow
  added =
      let first = X.port_check_and_add db ifname in
      if is_empty db.ports && not (is_some first.1)
      then X.port_check_and_add first.0 ifname
      else first

  -- The tables and the port or NULL after the search, where no port of another name has the interface.
  abbrev pub port_for : Tables × Option PortRow
  port_for = elim (last_port (find_interface ifname db.interfaces) db.ports none) [
    | some row ↦ (db, some row)
    | none ↦ added
  ]

  own_port-nil : db.ports ≡ [] → (is_in_lag ≡ false) × (own_port X db ifname none ≡ go port_for)
  unfolding own_port
  own_port-nil e = elim (Option-cases (X.port_check_and_add db ifname).1) [
    | inl f ↦ (ground (arith, e), ground (arith, e, f))
    | inr (row, f) ↦ (ground (arith, e), ground (arith, e, f))
  ]

  own_port-cons :
      (p : PortRow) (ps : List PortRow)
      → db.ports ≡ p ∷ ps
      → is_in_lag ≡ false
      → select_port
          (find_interface ifname db.interfaces)
          ifname
          (λ r. part_of_lag r.name ∷ [])
          db.ports
          none
        ≡ go (last_port (find_interface ifname db.interfaces) db.ports none)
      → own_port X db ifname none ≡ go port_for
  unfolding own_port
  own_port-cons p ps e off found =
      elim (Option-cases (last_port (find_interface ifname db.interfaces) db.ports none)) [
        | inl f ↦ ground (arith, e, found, f)
        | inr (row, f) ↦ ground (arith, e, found, f)
      ]

  -- The search aborts exactly if a port of another name has the interface. Otherwise it goes on with
  -- the last port that has the interface, or, where there is none, with what `port_check_and_add`
  -- returns.
  pub own_port_lem :
      ((is_in_lag ≡ true)
        × (row : PortRow) × (own_port X db ifname none ≡ abort (part_of_lag row.name ∷ [])))
      ⊎ ((is_in_lag ≡ false) × (own_port X db ifname none ≡ go port_for))
  unfolding own_port
  own_port_lem = elim (ports-cases db.ports) [
    | inl e ↦ inr (own_port-nil e)
    | inr (p, ps, e) ↦
        elim (select_port_lem (find_interface ifname db.interfaces) ifname
          (λ r. part_of_lag r.name ∷ []) db.ports none) [
            | inl (off, row, _, _, stops) ↦ inl (off, row, ground (arith, e, stops))
            | inr (off, found) ↦ inr (off, own_port-cons p ps e off found)
          ]
  ]
