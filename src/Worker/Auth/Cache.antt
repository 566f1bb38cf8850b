-- ===== src/Worker/Auth/Cache.antt =====
-- What a call of ensure_worker_authenticated returns and leaves in the cache.
use manifeed.Common.{
  true, normalize_datetime, ◌+◌, ◌<◌, ◌≡◌, ◌⊎◌, inl, inr, refl, sym, ap, ◌∙◌, false, ◌||◌, Option,
  none, some, String, Instant, DateTime, strip, is_empty, ltb, if-cases, Bool-cases, arith, Outcome,
  ok, err, Error,
}
use manifeed.Worker.Parse.{Moment, to_utc}
use manifeed.Worker.Parse.OutOfTime.{is_out_of_time, to_utc-raises}
use manifeed.Worker.Auth.{
  fresh_token, store_expiry, AuthEnv, TokenCache, refresh_buffer, usable_token,
  request_worker_token, store_token, authenticate, ensure_worker_authenticated,
}

-- A token that can be used is the cached one, is not empty, and is good for over a minute.
pub record IsFresh (now : Instant) (c : TokenCache) (token : String) : Type 0 where
  pub cached : c.token ≡ some token
  pub filled : is_empty token ≡ false
  pub expires : Instant
  pub known : c.expires_at ≡ some expires
  pub later : now + refresh_buffer < expires

-- The backend granted a token, with the date on which it expires.
abbrev pub IsGranted : AuthEnv → String → Moment → Type 0
IsGranted env token m = request_worker_token env.fromisoformat env.reply ≡ ok (token, m)

-- A token was granted with a date that a datetime in UTC does not reach.
abbrev pub IsHalfStored : AuthEnv → TokenCache → Error → TokenCache → Type 0
IsHalfStored env c e c' =
    (token : String) × (m : Moment) × IsGranted env token m
    × (is_out_of_time m ≡ true)
    × (e ≡ Error.overflow_error)
    × (c'.token ≡ some token)
    × (c'.expires_at ≡ c.expires_at)

-- What a call of the service says of its outcome: a token that was returned is cached behind it, and
-- was fresh in an unchanged cache, or was granted by the backend and stands there with its date; an
-- exception leaves the cache, or a granted token with the date of the one before.
abbrev pub AuthOutcome : AuthEnv → TokenCache → Outcome String × TokenCache → Type 0
AuthOutcome env c (err e, c') = (c' ≡ c) ⊎ IsHalfStored env c e c'
AuthOutcome env c (ok token, c') =
    (c'.token ≡ some token)
    × ((IsFresh env.now c token × (c' ≡ c))
        ⊎ ((m : Moment) × (d : DateTime) × IsGranted env token m
            × (to_utc m ≡ ok d)
            × (c'.expires_at ≡ some (normalize_datetime d))))

some-injective : (a b : String) → Option.some a ≡ some b → a ≡ b
some-injective a b h = ap (λ o. elim o [ none ↦ a | some x ↦ x ]) h

fresh_token-cases :
    (now : Instant) (t : Option String) (e : Option Instant) (token : String)
    → fresh_token now t e ≡ some token
    → (t ≡ some token)
      × (is_empty token ≡ false)
      × ((x : Instant) × (e ≡ some x) × (now + refresh_buffer < x))
fresh_token-cases now none e token h = cc
fresh_token-cases now (some t) none token h = cc
fresh_token-cases now (some t) (some x) token h = elim (Bool-cases (is_empty t)) [
  | inl empty ↦ cc (rw empty at h)
  | inr filled ↦ elim (Bool-cases (ltb (now + refresh_buffer) x)) [
    | inl later ↦
        let same = some-injective t token (rw later at (rw filled at h)) in
        (ap some same, ap is_empty (sym same) ∙ filled, (x, refl, ground arith))
    | inr old ↦ cc (rw old at (rw filled at h))
  ]
]

usable-IsFresh :
    (now : Instant) (c : TokenCache) (token : String)
    → usable_token now c ≡ some token
    → IsFresh now c token
unfolding usable_token
usable-IsFresh now c token h =
    let (cached, filled, (expires, known, later)) =
      fresh_token-cases now c.token c.expires_at token h in
    record { cached = cached; filled = filled; expires = expires; known = known; later = later }

store_token-AuthOutcome :
    (env : AuthEnv) (c : TokenCache) (r : Outcome (String × Moment))
    → request_worker_token env.fromisoformat env.reply ≡ r
    → AuthOutcome env c (store_token r c)
unfolding store_token
store_token-AuthOutcome env c (err e) h = inl refl
store_token-AuthOutcome env c (ok (token, m)) h = go (to_utc m) refl
  where
    go :
        (d : Outcome DateTime)
        → to_utc m ≡ d
        → AuthOutcome env c (store_expiry token d (record c { token = some token }))
    go (ok d) e = (refl, inr (m, d, h, e, refl))
    go (err x) e =
        let (out, overflow) = to_utc-raises m x e in inr (token, m, h, out, overflow, refl, refl)

authenticate-AuthOutcome :
    (env : AuthEnv) (c : TokenCache) (o : Option String)
    → usable_token env.now c ≡ o
    → AuthOutcome env c (authenticate env o c)
authenticate-AuthOutcome env c (some token) h =
    let fresh = usable-IsFresh env.now c token h in (fresh.cached, inl (fresh, refl))
authenticate-AuthOutcome env c none h =
    if-cases (AuthOutcome env c)
      (is_empty (strip env.worker_id) || is_empty (strip env.worker_secret))
      (err Error.worker_authentication, c)
      (store_token (request_worker_token env.fromisoformat env.reply) c) (λ _. inl refl)
      (λ _. store_token-AuthOutcome env c (request_worker_token env.fromisoformat env.reply) refl)

-- Whatever the cache and the backend's answer, a token that is returned is cached behind the call:
-- it was cached before, not empty and good for more than a minute, and the cache is unchanged, or
-- the backend has just granted it, and it is cached with its date. Where the call raises, the cache
-- is unchanged, or the backend granted a token with a date that a datetime in UTC does not reach:
-- then the token is cached all the same, with the date that was there before.
pub ensure_worker_authenticated-AuthOutcome :
    (env : AuthEnv) (c : TokenCache) → AuthOutcome env c (ensure_worker_authenticated env c)
unfolding ensure_worker_authenticated
ensure_worker_authenticated-AuthOutcome env c =
    authenticate-AuthOutcome env c (usable_token env.now c) refl
