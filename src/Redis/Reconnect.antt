-- ===== src/Redis/Reconnect.antt =====
-- The attempts of a command and the cached connection.
use manifeed.Common.{ℕ, ◌≡◌, Bool, true, false, none, some, ◌∷◌, arith, if◌then◌else◌}
use manifeed.Redis.{
  Reply, value, connection_error, timeout_error, response_error, Connections, Run, returned, raised,
  gave_up, get_redis_client, run_redis_command,
}

-- An error of the connection itself.
abbrev pub is_down {ℓ} : {A : Type ℓ} → Reply A → Bool
is_down (value _) = false
is_down connection_error = true
is_down timeout_error = true
is_down (response_error _) = false

-- What a command ends with, given the reply of its last connection.
abbrev pub answer {ℓ} : {A : Type ℓ} → Reply A → Run A
answer (value a) = returned a
answer (response_error m) = raised m
answer connection_error = gave_up
answer timeout_error = gave_up

-- A command gives the answer of the connection at hand; where that is down, the answer of a new
-- connection, which takes its place; where both are down it gives up. A connection that is down is
-- closed and does not stay cached.
pub reconnects_once {ℓ} :
    {A : Type ℓ} (command : ℕ → Reply A) (st : Connections)
    → let (c, st₁) = get_redis_client st in
      let (r, st₂) = run_redis_command command st in
      let first = is_down (command c) in
      let second = is_down (command st₁.next) in
      (r ≡ (if first then answer (command st₁.next) else answer (command c)))
      × (st₂.client ≡ (if first then (if second then none else some st₁.next) else some c))
      × (st₂.closed ≡ (
          if first
          then (if second then st₁.next ∷ c ∷ st.closed else c ∷ st.closed)
          else st.closed))
unfolding run_redis_command
reconnects_once command st = ground arith
