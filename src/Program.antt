-- ===== src/Program.antt =====
-- The two programs, src/cmd/app/producer/main.go and src/cmd/app/consumer/main.go: each runs until
-- it returns or zap's `Fatal` ends the process. What it has done is a list of events, the newest
-- first; the list is history, which no definition of the programs reads.
use go_service_bao_fight.Base.{String, List, ◌∷◌, Option, none, some}
use go_service_bao_fight.Effects.{GoError}

-- How a stretch of `main` ends: the process is dead, with the text of `Fatal`, or it goes on.
pub data Ended (A : Type 0) : Type 0 where
  died : String → Ended A
  done : A → Ended A

pub record Process (W E : Type 0) : Type 0 where
  pub world : W
  pub events : List E

abbrev pub Program : Type 0 → Type 0 → Type 0 → Type 0
Program W E A = Process W E → Ended A × Process W E

module _ {W E : Type 0} where
  infixl 5 ◌>>=◌ ◌>>◌
  abbrev pub pure : {A : Type 0} → A → Program W E A
  pure a p = (done a, p)

  abbrev pub continue :
      {A C : Type 0} → (A → Program W E C) → Ended A × Process W E → Ended C × Process W E
  continue f (died text, p) = (died text, p)
  continue f (done a, p) = f a p

  abbrev pub ◌>>=◌ : {A C : Type 0} → Program W E A → (A → Program W E C) → Program W E C
  ◌>>=◌ m f p = continue f (m p)

  abbrev pub ◌>>◌ : {A C : Type 0} → Program W E A → Program W E C → Program W E C
  m >> k = m >>= λ _. k

  -- A call of a library, and the event that it is.
  abbrev pub act : {A : Type 0} → (W → A × W) → (A → E) → Program W E A
  act f event p =
      let (a, w) = f p.world in (done a, record { world = w; events = event a ∷ p.events })

  -- A call that is no event.
  abbrev pub ask : {A : Type 0} → (W → A × W) → Program W E A
  ask f p = let (a, w) = f p.world in (done a, record p { world = w })

  abbrev pub mark : E → Program W E (Unit {0})
  mark e p = (done tt, record p { events = e ∷ p.events })

  -- `logger.Fatal(text, ...)`, which never returns.
  abbrev pub fatal : {A : Type 0} → String → (String → E) → Program W E A
  fatal text event p = (died text, record p { events = event text ∷ p.events })

  -- `if err != nil { logger.Fatal(text, zap.Error(err)) }`
  abbrev pub check : (String → E) → String → Option GoError → Program W E (Unit {0})
  check event text none = pure tt
  check event text (some e) = fatal text event

  -- What a stretch of a program does to the history, if it dies and if it goes on.
  abbrev pub Outcome :
      {A : Type 0} → (List E → Type 0) → (A → List E → Type 0) → Ended A × Process W E → Type 0
  Outcome D Q (died text, p) = D p.events
  Outcome D Q (done a, p) = Q a p.events

  abbrev pub Leads :
      {A : Type 0}
      → (List E → Type 0)
      → (List E → Type 0)
      → Program W E A
      → (A → List E → Type 0)
      → Type 0
  Leads D P m Q = (p : Process W E) → P p.events → Outcome D Q (m p)

  pub Leads-bind :
      {A C : Type 0} (D P : List E → Type 0) (Q : A → List E → Type 0) (R : C → List E → Type 0)
      (m : Program W E A) (k : A → Program W E C)
      → Leads D P m Q
      → ((a : A) → Leads D (Q a) (k a) R)
      → Leads D P (m >>= k) R
  Leads-bind {A = A} {C = C} D P Q R m k h g p x = after (m p) (h p x)
    where
      after : (r : Ended A × Process W E) → Outcome D Q r → Outcome D R (continue k r)
      after (died text, p) d = d
      after (done a, p) q = g a p q
