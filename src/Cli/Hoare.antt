-- ===== src/Cli/Hoare.antt =====
-- Reasoning about the writes that a command hands to `cli_do_config_finish`.
use vland.Common.{
  String, ◌≡◌, refl, Bool, true, false, Option, none, some, List, [], ◌∷◌, All, arith,
}
use vland.Cli.{
  PortRow, Tables, Ending, aborted, finished, Message, Step, go, stop, fault, ◌>>=◌, require, deref,
  put_port, find_port,
}

-- The tables that are handed in, if any are, have a property.
abbrev pub Hands : (Tables → Type 0) → Ending → Type 0
Hands P aborted = Unit
Hands P (finished db) = P db

-- A read through NULL or past what was written.
abbrev pub is_fault : {A : Type 0} → Step A → Bool
is_fault (go a) = false
is_fault (stop o) = false
is_fault fault = true

abbrev pub Writes : {A : Type 0} → (Tables → Type 0) → Step A → Type 0
Writes P (go a) = Unit
Writes P (stop o) = Hands P o.ending
Writes P fault = Unit

module _ {A : Type 0} (P : Tables → Type 0) where
  pub Writes-require :
      (b : Bool) (said : List Message) (f : Unit → Step A)
      → (b ≡ true → Writes P (f tt))
      → Writes P (require b said >>= f)
  Writes-require true said f h = h refl
  Writes-require false said f h = tt

  pub Writes-deref :
      {R : Type 0} (o : Option R) (f : R → Step A)
      → ((row : R) → o ≡ some row → Writes P (f row))
      → Writes P (deref o >>= f)
  Writes-deref none f h = tt
  Writes-deref (some row) f h = h row refl

  -- The guards at the start of a LAG command.
  pub Writes-guards :
      (a b : Bool) (m n : List Message) (f : Unit → Step A)
      → (a ≡ true → b ≡ true → Writes P (f tt))
      → Writes P ((require a m >>= (λ _. require b n)) >>= f)
  Writes-guards true true m n f h = h refl refl
  Writes-guards true false m n f h = tt
  Writes-guards false b m n f h = tt

  -- A part that hands in nothing itself.
  pub Writes-bind :
      {R : Type 0} (m : Step R) (f : R → Step A)
      → Writes P m
      → ((r : R) → m ≡ go r → Writes P (f r))
      → Writes P (m >>= f)
  Writes-bind (go r) f w h = h r refl
  Writes-bind (stop o) f w h = w
  Writes-bind fault f w h = tt

pub All-find_port :
    (P : PortRow → Type 0) (name : String) (row : PortRow) (ports : List PortRow)
    → All P ports
    → find_port name ports ≡ some row
    → P row
unfolding find_port
All-find_port P name row [] h e = cc
All-find_port P name row (p ∷ ps) h e = ground (arith, All-find_port P name row ps h.1)

pub All-put_port :
    (P : PortRow → Type 0) (row : PortRow) (ports : List PortRow)
    → All P ports
    → P row
    → All P (put_port row ports)
All-put_port P row [] h p = tt
All-put_port P row (q ∷ qs) h p = ground (arith, All-put_port P row qs h.1)

Hands-mono :
    (P Q : Tables → Type 0) (e : Ending) → ((db : Tables) → P db → Q db) → Hands P e → Hands Q e
Hands-mono P Q aborted h w = tt
Hands-mono P Q (finished db) h w = h db w

-- A property of what is handed in may be weakened.
pub Writes-mono :
    {A : Type 0} (P Q : Tables → Type 0) (m : Step A)
    → ((db : Tables) → P db → Q db)
    → Writes P m
    → Writes Q m
Writes-mono P Q (go a) h w = tt
Writes-mono P Q fault h w = tt
Writes-mono P Q (stop o) h w = Hands-mono P Q o.ending h w
