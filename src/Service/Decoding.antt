-- ===== src/Service/Decoding.antt =====
-- The loop with which a handler of the consumer unmarshals a batch (src/internal/service): a message
-- that does not parse is logged and skipped.
use mathlib.Core.List.{Memᴰ}
use mathlib.Core.Option.{Option-elim}
use go_service_bao_fight.Base.{
  ◌≡◌, refl, sym, ◌∙◌, Option, none, some, List, [], ◌∷◌, ◌++◌, append_assoc, append-nil,
  filter_map, Option-cases, inl, inr,
}

-- `acc` is the slice so far.
unfoldable pub decode_loop {ℓ κ} :
    {B : Type ℓ} {R : Type κ} → (B → Option R) → List B → List R → List R
decode_loop decode [] acc = acc
decode_loop decode (d ∷ ds) acc = elim (decode d) [
  | none ↦ decode_loop decode ds acc
  | some r ↦ decode_loop decode ds (acc ++ r ∷ [])
]

module _ {B R : Type 0} (decode : B → Option R) where
  pub filter_map-none :
      (d : B) (ds : List B) → decode d ≡ none → filter_map decode (d ∷ ds) ≡ filter_map decode ds
  unfolding filter_map Option-elim
  filter_map-none d ds e = rw e

  pub filter_map-some :
      (d : B) (ds : List B) {r : R}
      → decode d ≡ some r
      → filter_map decode (d ∷ ds) ≡ r ∷ filter_map decode ds
  unfolding filter_map Option-elim
  filter_map-some d ds e = rw e

  decode_loop_append :
      (ds : List B) (acc : List R) → decode_loop decode ds acc ≡ acc ++ filter_map decode ds
  unfolding decode_loop filter_map
  decode_loop_append [] acc = sym (append-nil acc)
  decode_loop_append (d ∷ ds) acc = elim (Option-cases (decode d)) [
    | inl e ↦ rw (e, decode_loop) (decode_loop_append ds acc)
    | inr (r, e) ↦
        rw (e, decode_loop)
          (decode_loop_append ds (acc ++ r ∷ []) ∙ append_assoc acc (r ∷ []) (filter_map decode ds))
  ]

  -- The loop keeps what parses, in order.
  pub decode_loop_lem : (ds : List B) → decode_loop decode ds [] ≡ filter_map decode ds
  decode_loop_lem ds = decode_loop_append ds []

  -- A message of the batch that parses is among the results.
  pub mem-filter_map :
      {d : B} {ds : List B} {r : R} → Memᴰ d ds → decode d ≡ some r → Memᴰ r (filter_map decode ds)
  mem-filter_map {ds = []} m e = elim m [ ]
  mem-filter_map {d} {ds = x ∷ xs} {r} (Memᴰ.head p) e =
      rw (filter_map-some x xs (rw p at e)) (Memᴰ.head refl)
  mem-filter_map {ds = x ∷ xs} (Memᴰ.tail m) e = elim (Option-cases (decode x)) [
    | inl n ↦ rw (filter_map-none x xs n) (mem-filter_map m e)
    | inr (y, n) ↦ rw (filter_map-some x xs n) (Memᴰ.tail (mem-filter_map m e))
  ]
