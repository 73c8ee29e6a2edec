-- ===== src/Producer/Retry.antt =====
-- The loop that waits for S3 (src/cmd/app/producer/main.go).
use go_service_bao_fight.Base.{
  ℕ, zero, suc, ◌+◌, ◌*◌, ◌<◌, ◌≡◌, refl, ◌⊎◌, inl, inr, Option, none, some, List, [], ◌∷◌,
  Option-cases, arith,
}
use go_service_bao_fight.Effects.{GoError}
use go_service_bao_fight.Config.{Environment}
use go_service_bao_fight.Program.{Ended, done, Process}
use go_service_bao_fight.Producer.{Platform, Event, attempt, slept, try_s3, connect_s3}

-- The attempts at S3 in a history, and the seconds slept.
abbrev pub attempts : List Event → ℕ
attempts [] = 0
attempts (attempt err ∷ es) = suc (attempts es)
attempts (_ ∷ es) = attempts es

abbrev pub seconds : List Event → ℕ
seconds [] = 0
seconds (slept n ∷ es) = n + seconds es
seconds (_ ∷ es) = seconds es

-- The loop has succeeded: with the last of at most `n` attempts, and a pause for each one before.
abbrev pub HasConnected :
    {W : Type 0} → ℕ → List Event → Ended (Option GoError) × Process W Event → Type 0
HasConnected n es (r, p) =
    (r ≡ done none)
    × (k : ℕ) × (k < n)
    × (attempts p.events ≡ suc k + attempts es)
    × (seconds p.events ≡ k * 2 + seconds es)
    × (rest : List Event) × (p.events ≡ attempt none ∷ rest)

-- The loop has given up: after `n` attempts, each with its pause, and with the last error.
abbrev pub HasGivenUp :
    {W : Type 0} → ℕ → List Event → Ended (Option GoError) × Process W Event → Type 0
HasGivenUp n es (r, p) =
    (e : GoError) × (r ≡ done (some e))
    × (attempts p.events ≡ n + attempts es)
    × (seconds p.events ≡ n * 2 + seconds es)
    × (rest : List Event) × (p.events ≡ slept 2 ∷ attempt (some e) ∷ rest)

module _ {W : Type 0} (platform : Platform W) (env : Environment) where
  -- What holds after a failed attempt holds of the whole loop.
  one_more :
      (n : ℕ) (es : List Event) (e : GoError) (q : Ended (Option GoError) × Process W Event)
      → HasConnected n (slept 2 ∷ attempt (some e) ∷ es) q
        ⊎ HasGivenUp n (slept 2 ∷ attempt (some e) ∷ es) q
      → HasConnected (suc n) es q ⊎ HasGivenUp (suc n) es q
  one_more n es e q (inl (r, k, b, a, s, rest, l)) =
      inl (r, suc k, omega (arith, b), omega (arith, a), omega (arith, s), rest, l)
  one_more n es e q (inr (x, r, a, s, rest, l)) =
      inr (x, r, omega (arith, a), omega (arith, s), rest, l)

  -- The process after a failed attempt and its pause.
  abbrev paused : GoError → Process W Event → Process W Event
  paused x p = record {
    world = platform.sleep 2 (try_s3 platform env p.world).1;
    events = slept 2 ∷ attempt (some x) ∷ p.events;
  }

  rounds :
      (n : ℕ) (err : Option GoError) (p : Process W Event)
      → HasConnected (suc n) p.events (connect_s3 platform env (suc n) err p)
        ⊎ HasGivenUp (suc n) p.events (connect_s3 platform env (suc n) err p)
  unfolding connect_s3
  rounds zero err p = elim (Option-cases (try_s3 platform env p.world).0) [
    | inl e ↦ rw e (inl (refl, 0, omega arith, omega arith, omega arith, p.events, refl))
    | inr (x, e) ↦ rw e (inr (x, refl, omega arith, omega arith, p.events, refl))
  ]
  rounds (suc n) err p = elim (Option-cases (try_s3 platform env p.world).0) [
    | inl e ↦ rw e (inl (refl, 0, omega arith, omega arith, omega arith, p.events, refl))
    | inr (x, e) ↦ rw e (
        one_more (suc n) p.events x (connect_s3 platform env (suc n) (some x) (paused x p))
          (rounds n (some x) (paused x p)))
  ]

-- The loop ends, whatever S3 answers: without an error after at most ten attempts, the last of which
-- succeeded, and two seconds of sleep for each one before it; or with the error of the tenth attempt,
-- after ten attempts and twenty seconds of sleep.
pub connect_s3-ends :
    {W : Type 0} (platform : Platform W) (env : Environment) (w : W)
    → HasConnected 10 [] (connect_s3 platform env 10 none (record { world = w; events = [] }))
      ⊎ HasGivenUp 10 [] (connect_s3 platform env 10 none (record { world = w; events = [] }))
connect_s3-ends platform env w = rounds platform env 9 none (record { world = w; events = [] })
