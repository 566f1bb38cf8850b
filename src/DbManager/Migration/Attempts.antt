-- ===== src/DbManager/Migration/Attempts.antt =====
-- The attempts of a migration: how many there are, and what the last one decides.
use manifeed.Common.{
  ℕ, zero, suc, ◌+◌, ◌≤◌, ◌<◌, ◌≡◌, refl, sym, ap, ◌∙◌, Bool, true, false, ◌⊎◌, inl, inr, length,
  [], ◌∷◌, pos, arith, if-cases, Outcome, ok, err, Error, leb,
}
use manifeed.DbManager.Migration.{
  Alembic, Tried, upgrade_from, build_alembic_config, upgrade_with, run_db_migrations,
}

-- What the loop leaves that starts at the attempt `first`: it is repeated as long as the upgrade
-- raises, up to the attempt `max`.
pub record IsDecided (upgrades : ℕ → Bool) (max first : ℕ) (run : Outcome (Unit {0}) × Tried)
    : Type 0 where
  pub retries : ℕ
  pub attempts : run.1.attempts ≡ suc retries
  pub sleeps : length run.1.sleeps ≡ retries
  pub within : retries + first ≤ max
  pub earlier_failed : (n : ℕ) → n < retries → upgrades (n + first) ≡ false
  pub decided :
      ((upgrades (retries + first) ≡ true) × (run.0 ≡ ok tt))
      ⊎ ((upgrades (retries + first) ≡ false)
          × ((retries + first ≡ max) × (run.0 ≡ err Error.db_manager)))

zero_plus : (n : ℕ) → 0 + n ≡ n
zero_plus n = omega arith

none_earlier : (upgrades : ℕ → Bool) (first n : ℕ) → n < 0 → upgrades (n + first) ≡ false
none_earlier upgrades first n less = ground arith

once :
    (upgrades : ℕ → Bool) (max first : ℕ) (result : Outcome (Unit {0}))
    → first ≤ max
    → ((upgrades first ≡ true) × (result ≡ ok tt))
      ⊎ ((upgrades first ≡ false) × ((first ≡ max) × (result ≡ err Error.db_manager)))
    → IsDecided upgrades max first (result, record { attempts = 1; sleeps = [] })
once upgrades max first result h d = record {
  retries = 0;
  attempts = refl;
  sleeps = refl;
  within = omega arith;
  earlier_failed = none_earlier upgrades first;
  decided = rw (zero_plus first) d;
}

earlier-shift :
    (upgrades : ℕ → Bool) (first r n : ℕ)
    → upgrades first ≡ false
    → ((n : ℕ) → n < r → upgrades (n + suc first) ≡ false)
    → n < suc r
    → upgrades (n + first) ≡ false
earlier-shift upgrades first r zero h k less = rw (zero_plus first) h
earlier-shift upgrades first r (suc n) h k less =
    ap upgrades {x = suc n + first} {y = n + suc first} (omega arith) ∙ k n (omega arith)

again :
    (upgrades : ℕ → Bool) (max first delay : ℕ) (run : Outcome (Unit {0}) × Tried)
    → upgrades first ≡ false
    → IsDecided upgrades max (suc first) run
    → IsDecided upgrades max first
        (run.0, record { attempts = suc run.1.attempts; sleeps = delay ∷ run.1.sleeps })
again upgrades max first delay run h d =
    let shift : d.retries + suc first ≡ suc d.retries + first = omega arith in
    record {
      retries = suc d.retries;
      attempts = ap suc d.attempts;
      sleeps = ap suc d.sleeps;
      within = omega (arith, d.within);
      earlier_failed = λ n less. earlier-shift upgrades first d.retries n h d.earlier_failed less;
      decided = elim d.decided [
        | inl (good, result) ↦ inl (ap upgrades (sym shift) ∙ good, result)
        | inr (bad, (last, result)) ↦
            inr (ap upgrades (sym shift) ∙ bad, (sym shift ∙ last, result))
      ];
    }

leb-last : (max first : ℕ) → 0 + first ≡ max → leb max first ≡ true
leb-last max first e = ground arith

leb-more : (max first left : ℕ) → suc left + first ≡ max → leb max first ≡ false
leb-more max first left e = ground arith

upgrade_from-IsDecided :
    (upgrades : ℕ → Bool) (max delay left first : ℕ)
    → left + first ≡ max
    → IsDecided upgrades max first (upgrade_from upgrades max delay (suc left) first)
unfolding upgrade_from
upgrade_from-IsDecided upgrades max delay zero first e =
    if-cases (IsDecided upgrades max first) (upgrades first) _ _
      (λ good. once upgrades max first (ok tt) (omega (arith, e)) (inl (good, refl)))
      (λ bad. rw (leb-last max first e) (
        once upgrades max first (err Error.db_manager) (omega (arith, e))
          (inr (bad, (omega (arith, e), refl)))))
upgrade_from-IsDecided upgrades max delay (suc left) first e =
    if-cases (IsDecided upgrades max first) (upgrades first) _ _
      (λ good. once upgrades max first (ok tt) (omega (arith, e)) (inl (good, refl)))
      (λ bad. rw (leb-more max first left e) (
        again upgrades max first delay _ bad
          (upgrade_from-IsDecided upgrades max delay left (suc first) (omega (arith, e)))))

-- With the files of alembic there and at least one attempt allowed, the migration is tried until an
-- upgrade returns, and at most as often as allowed, with a sleep between two attempts: it returns
-- exactly if the last attempt does, and raises only when all attempts are used.
pub run_db_migrations-IsDecided :
    (a : Alembic) (n delay : ℕ)
    → a.ini_exists ≡ true
    → a.script_location_exists ≡ true
    → IsDecided a.upgrades (suc n) 1 (run_db_migrations a (pos (suc n)) delay)
unfolding run_db_migrations build_alembic_config upgrade_with
run_db_migrations-IsDecided a n delay ini script =
    rw ini (rw script (upgrade_from-IsDecided a.upgrades (suc n) delay n 1 (omega arith)))
