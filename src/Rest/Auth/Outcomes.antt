-- ===== src/Rest/Auth/Outcomes.antt =====
-- What `getSenderID` returns (src/internal/transport/rest/message_handler.go).
use go_service_bao_fight.Base.{
  Option, ℕ, String, ◌≡◌, ◌⊎◌, inl, inr, refl, none, some, ◌∷◌, arith, Option-cases,
}
use go_service_bao_fight.Base.Json.{Json}
use go_service_bao_fight.Effects.{M, GoError, Env, Echo, replied, error_body}
use go_service_bao_fight.Rest.Auth.{
  UserValue, token_claims, get_sender_id, with_sender, named_user, Writes,
}

-- A failed call has written one response, a 401 or a 500.
pub record IsRefused {W B : Type 0} (before after : Env W B) : Type 0 where
  pub status : ℕ
  pub body : Json
  pub logged : after.log ≡ replied status body ∷ before.log
  pub refusal : (status ≡ 401) ⊎ (status ≡ 500)

module _ {W B : Type 0} (echo : Echo W) where
  -- A request that names a user: the id comes back, and nothing was written.
  pub get_sender_id_named :
      (user : UserValue) (s : String) (env : Env W B)
      → named_user user ≡ some s
      → get_sender_id echo user env ≡ ((s, none), env)
  unfolding get_sender_id named_user
  get_sender_id_named user s env h = ground arith

  -- A request that names no user: the empty id comes back with the error of writing the response.
  get_sender_id_unnamed :
      (user : UserValue) (env : Env W B)
      → named_user user ≡ none
      → (((get_sender_id echo user env).0.0 ≡ "")
          × IsRefused env (get_sender_id echo user env).1
          × (Writes echo → (get_sender_id echo user env).0.1 ≡ none))
  unfolding get_sender_id named_user
  get_sender_id_unnamed none env h = (
    refl,
    record { status = 401; body = error_body "token missing"; logged = refl; refusal = inl refl },
    λ w. w _ _ _,
  )
  get_sender_id_unnamed (some user) env h = elim (Option-cases (token_claims user)) [
    | inl q ↦ (
      ground arith,
      record {
        status = 500;
        body = error_body "internal token error";
        logged = ground arith;
        refusal = inr refl;
      },
      λ w. ground (arith, w 500 (error_body "internal token error") env.world),
    )
    | inr (claims, q) ↦ (
      ground arith,
      record {
        status = 401;
        body = error_body "user_id missing";
        logged = ground arith;
        refusal = inl refl;
      },
      λ w. ground (arith, w 401 (error_body "user_id missing") env.world),
    )
  ]

-- Where echo writes every response: for a request that names no user, one response is written, a
-- 401 or a 500, and the call returns the empty id with a nil error, so that the test `err != nil`
-- of its callers does not stop them.
pub get_sender_id_fails_open :
    {W B : Type 0} (echo : Echo W) (user : UserValue) (env : Env W B)
    → Writes echo
    → named_user user ≡ none
    → ((get_sender_id echo user env).0 ≡ ("", none)) × IsRefused env (get_sender_id echo user env).1
get_sender_id_fails_open echo user env w h =
    let (id, r, e) = get_sender_id_unnamed echo user env h in (λ i. (id i, e w i), r)

module _ {W B : Type 0} (echo : Echo W) (k : String → M W B (Option GoError)) where
  pub with_sender_named :
      (user : UserValue) (s : String) (env : Env W B)
      → named_user user ≡ some s
      → with_sender echo user k env ≡ k s env
  unfolding with_sender
  with_sender_named user s env h = ground (arith, get_sender_id_named echo user s env h)

  -- The handler goes on with the empty id, from a state in which one refusal was written.
  pub with_sender_unnamed :
      (user : UserValue) (env : Env W B)
      → Writes echo
      → named_user user ≡ none
      → (env' : Env W B) × (with_sender echo user k env ≡ k "" env') × IsRefused env env'
  unfolding with_sender
  with_sender_unnamed user env w h =
      let (e, r) = get_sender_id_fails_open echo user env w h in
      ((get_sender_id echo user env).1, ground (arith, e), r)
