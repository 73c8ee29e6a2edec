-- ===== src/Rest/Discovery/Store.antt =====
-- What `GetDiscovery` relies on (src/internal/transport/rest/reaction_handler.go): the list of Redis
-- that is the queue, and the table of profiles.
use go_service_bao_fight.Base.{
  ℕ, zero, suc, String, ◌≡◌, refl, ap, List, [], ◌∷◌, ◌++◌, Option, length, min, arith,
}
use go_service_bao_fight.Base.Json.{Json}
use go_service_bao_fight.Effects.{Echo}
use go_service_bao_fight.Models.{Profile}
use go_service_bao_fight.Rest.Discovery.{RedisList, DiscoveryDb, take}

abbrev pub drop : ℕ → List String → List String
drop zero xs = xs
drop (suc n) [] = []
drop (suc n) (x ∷ xs) = drop n xs

pub take-drop : (n : ℕ) (xs : List String) → take n xs ++ drop n xs ≡ xs
take-drop zero xs = refl
take-drop (suc n) [] = refl
take-drop (suc n) (x ∷ xs) = ap (λ l. x ∷ l) (take-drop n xs)

pub length-take : (n : ℕ) (xs : List String) → length (take n xs) ≡ min n (length xs)
length-take zero xs = omega arith
length-take (suc n) [] = omega arith
length-take (suc n) (x ∷ xs) = omega (arith, length-take n xs)

pub drop-length-take : (n : ℕ) (xs : List String) → drop (length (take n xs)) xs ≡ drop n xs
drop-length-take zero xs = refl
drop-length-take (suc n) [] = refl
drop-length-take (suc n) (x ∷ xs) = drop-length-take n xs

-- The queue is a list of Redis: LRANGE includes its last index. The other calls leave it alone.
pub record IsQueue {W : Type 0} (echo : Echo W) (list : RedisList W) (db : DiscoveryDb W)
    (queue : W → String → List String) : Type 0 where
  pub l_range_lem : (k : String) (n : ℕ) (w : W) → (list.l_range k n w).0 ≡ take (suc n) (queue w k)
  pub queue-l_range : (k : String) (n : ℕ) (w : W) → queue (list.l_range k n w).1 k ≡ queue w k
  pub queue-r_push :
      (k : String) (ids : List String) (w : W) → queue (list.r_push k ids w) k ≡ queue w k ++ ids
  pub queue-expire : (k : String) (t : ℕ) (w : W) → queue (list.expire k t w) k ≡ queue w k
  pub queue-l_trim : (k : String) (n : ℕ) (w : W) → queue (list.l_trim k n w) k ≡ drop n (queue w k)
  pub queue-candidates : (u k : String) (w : W) → queue (db.candidates u w).1 k ≡ queue w k
  pub queue-profiles :
      (ids : List String) (k : String) (w : W) → queue (db.profiles ids w).1 k ≡ queue w k
  pub queue-json :
      (status : ℕ) (body : Json) (w : W) (k : String)
      → queue (echo.json status body w).1 k ≡ queue w k

-- `rows w ids` are the profiles of these users in the database, or none if the query fails. Redis and
-- the query for the candidates leave them alone.
pub record IsProfileTable {W : Type 0} (list : RedisList W) (db : DiscoveryDb W)
    (rows : W → List String → Option (List Profile)) : Type 0 where
  pub profiles_lem : (ids : List String) (w : W) → (db.profiles ids w).0 ≡ rows w ids
  pub rows-l_range :
      (k : String) (n : ℕ) (w : W) (ids : List String)
      → rows (list.l_range k n w).1 ids ≡ rows w ids
  pub rows-r_push :
      (k : String) (xs : List String) (w : W) (ids : List String)
      → rows (list.r_push k xs w) ids ≡ rows w ids
  pub rows-expire :
      (k : String) (t : ℕ) (w : W) (ids : List String) → rows (list.expire k t w) ids ≡ rows w ids
  pub rows-candidates :
      (u : String) (w : W) (ids : List String) → rows (db.candidates u w).1 ids ≡ rows w ids
