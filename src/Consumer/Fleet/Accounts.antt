-- ===== src/Consumer/Fleet/Accounts.antt =====
-- What every worker of a consumer accounts for, whatever the others do
-- (src/cmd/app/consumer/main.go, src/internal/worker/kafka_worker.go).
use go_service_bao_fight.Base.{
  String, ◌≡◌, refl, sym, ap, ◌∙◌, none, append-nil, List, [], ◌∷◌, ◌++◌, map, All,
}
use go_service_bao_fight.Worker.Loop.{Handler, returned, start}
use go_service_bao_fight.Worker.Loop.Conservation.{handed}
use go_service_bao_fight.Worker.System.{System, Move, in_flight}
use go_service_bao_fight.Worker.System.Conservation.{
  IsConserved, IsDrained, Move-IsConserved, Move-IsDrained,
}
use go_service_bao_fight.Worker.Loop.Bounds.{NeverFails}
use go_service_bao_fight.Consumer.{Task, batch_size, workers, Launch}
use go_service_bao_fight.Consumer.Launches.{goroutines}
use go_service_bao_fight.Consumer.Fleet.{
  Member, Fleet, seeing, Act, move, elsewhere, begin, Sails, moored, onward,
}

module _ {A : Type 0} (P : A → Type 0) where
  -- A predicate on all members, when one of them is replaced.
  All-replace :
      (before : List A) (a b : A) (after : List A)
      → (P a → P b)
      → All P (before ++ a ∷ after)
      → All P (before ++ b ∷ after)
  All-replace [] a b after h (x, xs) = (h x, xs)
  All-replace (c ∷ before) a b after h (x, xs) = (x, All-replace before a b after h xs)

launch-replace :
    {W B : Type 0} (before : List (Member W B)) (m n : Member W B) (after : List (Member W B))
    → m.launch ≡ n.launch
    → map (λ (x : Member W B). x.launch) (before ++ m ∷ after)
      ≡ map (λ (x : Member W B). x.launch) (before ++ n ∷ after)
launch-replace [] m n after e = ap (λ l. l ∷ map (λ x. x.launch) after) e
launch-replace (b ∷ before) m n after e =
    ap (λ ls. b.launch ∷ ls) (launch-replace before m n after e)

-- All of four predicates, where three of them give the fourth.
All-zip :
    {A : Type 0} (P Q R S : A → Type 0)
    → ((a : A) → P a → Q a → R a → S a)
    → (xs : List A) → All P xs
    → All Q xs
    → All R xs
    → All S xs
All-zip P Q R S f [] p q r = tt
All-zip P Q R S f (x ∷ xs) (p, ps) (q, qs) (r, rs) = (f x p q r, All-zip P Q R S f xs ps qs rs)

-- What every move of a single worker keeps, and what does not speak of the world, every worker of a
-- fleet keeps.
module _ {W B : Type 0} (handlers : Task → Handler W B) (P : Task → System W B → Type 0)
    (blind : (t : Task) (s : System W B) (w : W) → P t s → P t (seeing w s))
    (kept : (t : Task) (s u : System W B) → Move (handlers t) batch_size s u → P t s → P t u) where
  abbrev Keeps : Member W B → Type 0
  Keeps m = P m.launch.start.handler m.system

  Act-Keeps : (f g : Fleet W B) → Act handlers f g → All Keeps f.members → All Keeps g.members
  Act-Keeps f g (move before m after u e v q) h = rw q (
      All-replace Keeps before m (record m { system = u }) after
        (λ p.
          kept m.launch.start.handler (seeing f.world m.system) u v (blind _ m.system f.world p))
        (rw (sym e) h))
  Act-Keeps f g (elsewhere w q) h = rw q h

  Sails-Keeps :
      (w : W) (ls : List Launch) {f : Fleet W B}
      → All Keeps (begin handlers w ls)
      → Sails handlers w ls f
      → All Keeps f.members
  Sails-Keeps w ls h moored = h
  Sails-Keeps w ls h (onward {f} {g} s a) = Act-Keeps f g a (Sails-Keeps w ls h s)

module _ {W B : Type 0} (handlers : Task → Handler W B) where
  Act-launches :
      (f g : Fleet W B)
      → Act handlers f g
      → map (λ (x : Member W B). x.launch) f.members ≡ map (λ (x : Member W B). x.launch) g.members
  Act-launches f g (move before m after u e v q) =
      rw q (rw e (launch-replace before m (record m { system = u }) after refl))
  Act-launches f g (elsewhere w q) = rw q refl

  begin-launches :
      (w : W) (ls : List Launch) → map (λ (x : Member W B). x.launch) (begin handlers w ls) ≡ ls
  begin-launches w [] = refl
  begin-launches w (l ∷ ls) = ap (λ ms. l ∷ ms) (begin-launches w ls)

  Sails-launches :
      (w : W) (ls : List Launch) {f : Fleet W B}
      → Sails handlers w ls f
      → map (λ (x : Member W B). x.launch) f.members ≡ ls
  Sails-launches w ls moored = begin-launches w ls
  Sails-launches w ls (onward {f} {g} s a) = sym (Act-launches f g a) ∙ Sails-launches w ls s

  -- Accepted, in the batch or in the channel: what was fetched, in order.
  abbrev Accounts : Member W B → Type 0
  Accounts m =
      handed m.system.loop.calls ++ m.system.loop.batch ++ in_flight m.system.reader
      ≡ m.system.fetched

  begin-Accounts : (w : W) (ls : List Launch) → All Accounts (begin handlers w ls)
  unfolding start
  begin-Accounts w [] = tt
  begin-Accounts w (l ∷ ls) = (refl, begin-Accounts w ls)

  Sails-Accounts :
      (w : W) (ls : List Launch) {f : Fleet W B} → Sails handlers w ls f → All Accounts f.members
  Sails-Accounts w ls =
      Sails-Keeps handlers (λ t. IsConserved) (λ t s w h. h)
        (λ t. Move-IsConserved (handlers t) batch_size) w ls (begin-Accounts w ls)

  -- A worker that has returned nil has nothing in its batch.
  abbrev Drained : Member W B → Type 0
  Drained m = m.system.loop.status ≡ returned none → m.system.loop.batch ≡ []

  begin-Drained : (w : W) (ls : List Launch) → All Drained (begin handlers w ls)
  unfolding start
  begin-Drained w [] = tt
  begin-Drained w (l ∷ ls) = (λ d. refl, begin-Drained w ls)

  Sails-Drained :
      (w : W) (ls : List Launch) {f : Fleet W B}
      → ((t : Task) → NeverFails (handlers t))
      → Sails handlers w ls f
      → All Drained f.members
  Sails-Drained w ls ok =
      Sails-Keeps handlers (λ t s. IsDrained (handlers t) batch_size (ok t) s.loop) (λ t s w h. h)
        (λ t. Move-IsDrained (handlers t) batch_size (ok t)) w ls (begin-Drained w ls)

-- Whatever the order in which the workers of a consumer move, and whatever other programs do to the
-- world: the workers stay those of the chosen services, and for each of them the accepted messages,
-- then its batch, then the message in its channel are what it has fetched, in order.
pub fleet-Accounts :
    {W B : Type 0} (handlers : Task → Handler W B) (w : W) (services : List String)
    (broker : String) {f : Fleet W B}
    → Sails handlers w (goroutines broker (workers services)) f
    → (map (λ (x : Member W B). x.launch) f.members ≡ goroutines broker (workers services))
      × All
          (λ m.
            handed m.system.loop.calls ++ m.system.loop.batch ++ in_flight m.system.reader
            ≡ m.system.fetched)
          f.members
fleet-Accounts handlers w services broker s =
    let ls = goroutines broker (workers services) in
    (Sails-launches handlers w ls s, Sails-Accounts handlers w ls s)

empty_batch :
    {W B : Type 0} (m : Member W B)
    → handed m.system.loop.calls ++ m.system.loop.batch ++ in_flight m.system.reader
      ≡ m.system.fetched
    → (m.system.loop.status ≡ returned none → m.system.loop.batch ≡ [])
    → m.system.loop.status ≡ returned none
    → handed m.system.loop.calls ++ in_flight m.system.reader ≡ m.system.fetched
empty_batch m a d r =
    ap (λ x. x ++ in_flight m.system.reader)
      (sym (append-nil _) ∙ ap (λ x. handed m.system.loop.calls ++ x) (sym (d r)))
    ∙ a

-- If no handler ever fails and every worker of a consumer has returned nil, as a worker does
-- that is ended by the signal and not by a read error, then whatever the order of their moves was, each of them has had
-- accepted all that it has fetched, except for the one message that its reader may still hold.
pub fleet_shutdown :
    {W B : Type 0} (handlers : Task → Handler W B) (w : W) (services : List String)
    (broker : String) {f : Fleet W B}
    → ((t : Task) → NeverFails (handlers t))
    → Sails handlers w (goroutines broker (workers services)) f
    → All (λ m. m.system.loop.status ≡ returned none) f.members
    → All
        (λ m. handed m.system.loop.calls ++ in_flight m.system.reader ≡ m.system.fetched)
        f.members
fleet_shutdown handlers w services broker {f} ok s r =
    let ls = goroutines broker (workers services) in
    All-zip (Accounts handlers) (Drained handlers) (λ m. m.system.loop.status ≡ returned none)
      (λ m. handed m.system.loop.calls ++ in_flight m.system.reader ≡ m.system.fetched) empty_batch
      f.members (Sails-Accounts handlers w ls s) (Sails-Drained handlers w ls ok s) r
