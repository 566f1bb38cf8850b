-- ===== src/Backend/JobLock/Exclusion.antt =====
-- The locks of a job, inside of it and behind it.
use manifeed.Common.{
  ℕ, ◌≡◌, refl, true, not, ◌&&◌, Option, none, some, List, ◌∷◌, String, eq_refl, ==_refl, text_mem,
  if-cases, Outcome,
}
use manifeed.Backend.JobLock.{
  holds, lock_opened, Locks, Opening, connect_error, no_server, connected, Server, pg_lock_id,
  release_local, release_pg_lock, Body, run_locked, lock_server, job_lock,
}

name-here : (name : String) (names : List String) → text_mem name (name ∷ names) ≡ true
name-here name names = rw (eq_refl name)

release_local-added :
    (name : String) (l : Locks) → release_local name (record l { local = name ∷ l.local }) ≡ l
unfolding release_local
release_local-added name l = rw (eq_refl name)

release_both-added :
    (name : String) (id : ℕ) (l : Locks)
    → release_local name
        (release_pg_lock true id (record l { local = name ∷ l.local; server = id ∷ l.server }))
      ≡ l
unfolding release_local release_pg_lock
release_both-added name id l = rw (==_refl id) (rw (eq_refl name))

abbrev held : String → Locks → Locks
held name l = record l { local = name ∷ l.local }

module _ {ℓ κ} {A : Type ℓ} {S : Type κ} (server : Server) (name : String) (l : Locks) (s : S)
    (body : Body A S) where
  module _ (unlocks : server.unlocks ≡ true) where
    lock_opened-releases :
        (id : ℕ) (o : Opening) → (lock_opened server name id body (held name l) s o).1 ≡ l
    unfolding lock_opened run_locked
    lock_opened-releases id connect_error = release_local-added name l
    lock_opened-releases id no_server = release_local-added name l
    lock_opened-releases id connected =
        if-cases (λ (x : Outcome A × Locks × S). x.1 ≡ l)
          (server.is_free && not (holds id (held name l))) _ _
          (λ _. rw unlocks (release_both-added name id l)) (λ _. release_local-added name l)

    lock_server-releases : (o : Option ℕ) → (lock_server server name o body (held name l) s).1 ≡ l
    unfolding lock_server run_locked
    lock_server-releases none = release_local-added name l
    lock_server-releases (some id) = lock_opened-releases id server.opening

  module _ (keeps : (body (held name l) s).1 ≡ s)
      (keeps_both : (id : ℕ)
        → (body (record (held name l) { server = id ∷ l.server }) s).1 ≡ s) where
    lock_opened-excludes :
        (id : ℕ) (o : Opening) → (lock_opened server name id body (held name l) s o).2 ≡ s
    unfolding lock_opened run_locked
    lock_opened-excludes id connect_error = refl
    lock_opened-excludes id no_server = keeps
    lock_opened-excludes id connected =
        if-cases (λ (x : Outcome A × Locks × S). x.2 ≡ s)
          (server.is_free && not (holds id (held name l))) _ _ (λ _. keeps_both id) (λ _. refl)

    lock_server-excludes : (o : Option ℕ) → (lock_server server name o body (held name l) s).2 ≡ s
    unfolding lock_server run_locked
    lock_server-excludes none = keeps
    lock_server-excludes (some id) = lock_opened-excludes id server.opening

-- Where the server carries the unlock out, the locks behind a job are those before it: whether the
-- job was refused, its body returned or raised, or the connection failed.
pub job_lock-releases {ℓ κ} :
    {A : Type ℓ} {S : Type κ} (server : Server) (name : String) (body : Body A S) (l : Locks)
    (s : S)
    → server.unlocks ≡ true
    → (job_lock server name body l s).1 ≡ l
unfolding job_lock
job_lock-releases {A = A} {S = S} server name body l s unlocks =
    if-cases (λ (x : Outcome A × Locks × S). x.1 ≡ l) (text_mem name l.local) _ _ (λ _. refl)
      (λ _. lock_server-releases server name l s body unlocks (pg_lock_id name))

-- A job that is started while it runs, from inside its own body, does not run: the state that its
-- body would change is unchanged.
pub job_lock-excludes {ℓ κ} :
    {A : Type ℓ} {S : Type κ} (server server' : Server) (name : String) (body : Body A S)
    (l : Locks) (s : S)
    → (job_lock server name
        (λ l' s'. let (r, _, s'') = job_lock server' name body l' s' in (r, s''))
        l
        s).2
      ≡ s
unfolding job_lock
job_lock-excludes {A = A} {S = S} server server' name body l s =
    if-cases (λ (x : Outcome A × Locks × S). x.2 ≡ s) (text_mem name l.local) _ _ (λ _. refl)
      (λ _.
        lock_server-excludes server name l s _ (rw (eq_refl name) refl)
          (λ id. rw (eq_refl name) refl) (pg_lock_id name))
