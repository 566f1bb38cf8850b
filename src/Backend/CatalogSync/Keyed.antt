-- ===== src/Backend/CatalogSync/Keyed.antt =====
-- The primary key of the feeds, and its sequence.
use manifeed.Common.{
  ℕ, ◌+◌, ◌<◌, ◌≡◌, refl, ap, ◌∙◌, Bool, false, ◌&&◌, some, List, [], ◌∷◌, arith, any, find, filter,
  update, any-update, if-cases, ◌==◌, ==_iff,
}
use manifeed.Db.{Feed, is_feed}

abbrev pub Keyed : ℕ → List Feed → Type 0
Keyed next [] = Unit
Keyed next (f ∷ fs) = (f.id < next) × (any (is_feed f.id) fs ≡ false) × Keyed next fs

Keyed-suc : (n : ℕ) (fs : List Feed) → Keyed n fs → Keyed (n + 1) fs
Keyed-suc n [] _ = tt
Keyed-suc n (f ∷ fs) (less, once, h) = (omega arith, once, Keyed-suc n fs h)

-- The next id is not taken.
pub next-free : (n : ℕ) (fs : List Feed) → Keyed n fs → any (is_feed n) fs ≡ false
next-free n [] _ = refl
next-free n (f ∷ fs) (less, once, h) = ground (arith, next-free n fs h)

pub Keyed-cons :
    (n : ℕ) (f : Feed) (fs : List Feed) → f.id ≡ n → Keyed n fs → Keyed (n + 1) (f ∷ fs)
Keyed-cons n f fs e h = (omega arith, rw e (next-free n fs h), Keyed-suc n fs h)

pub Keyed-update :
    (n : ℕ) (q : Feed → Bool) (g : Feed → Feed) (fs : List Feed)
    → ((f : Feed) → (g f).id ≡ f.id)
    → Keyed n fs
    → Keyed n (update q g fs)
Keyed-update n q g [] same _ = tt
Keyed-update n q g (f ∷ fs) same (less, once, h) =
    let rest = Keyed-update n q g fs same h in
    let free = λ (k : ℕ). any-update (is_feed k) q g fs (λ x. ap (λ i. i == k) (same x)) in
    if-cases (λ x. Keyed n (x ∷ update q g fs)) (q f) _ _
      (λ _. (rw (same f) less, rw (same f) (free f.id ∙ once), rest))
      (λ _. (less, free f.id ∙ once, rest))

any-filter :
    (k : ℕ) (q : Feed → Bool) (fs : List Feed)
    → any (is_feed k) fs ≡ false
    → any (is_feed k) (filter q fs) ≡ false
any-filter k q [] h = refl
any-filter k q (f ∷ fs) h = ground (arith, any-filter k q fs)

pub Keyed-filter : (n : ℕ) (q : Feed → Bool) (fs : List Feed) → Keyed n fs → Keyed n (filter q fs)
Keyed-filter n q [] _ = tt
Keyed-filter n q (f ∷ fs) (less, once, h) =
    if-cases (Keyed n) (q f) _ _ (λ _. (less, any-filter f.id q fs once, Keyed-filter n q fs h))
      (λ _. Keyed-filter n q fs h)

absent-any :
    (k : ℕ) (p : Feed → Bool) (fs : List Feed)
    → any (is_feed k) fs ≡ false
    → any (λ g. g.id == k && p g) fs ≡ false
absent-any k p [] h = refl
absent-any k p (f ∷ fs) h = ground (arith, absent-any k p fs)

found-id :
    (p : Feed → Bool) (k : ℕ) (fs : List Feed) {f : Feed}
    → any (is_feed k) fs ≡ false
    → find p fs ≡ some f
    → (k == f.id) ≡ false
found-id p k [] h e = cc
found-id p k (g ∷ fs) {f} h e =
    ground (arith, ==_iff g.id k, ==_iff k f.id, found-id p k fs {f = f})

-- What a test says of a row that is found, it says of its id.
pub any-found :
    (n : ℕ) (q p : Feed → Bool) (fs : List Feed) {f : Feed}
    → Keyed n fs
    → find q fs ≡ some f
    → p f ≡ false
    → any (λ g. g.id == f.id && p g) fs ≡ false
any-found n q p [] h e bad = cc
any-found n q p (g ∷ fs) {f} (less, once, h) e bad = ground (
  arith,
  absent-any g.id p fs once,
  found-id q g.id fs {f = f} once,
  any-found n q p fs {f = f} h,
)
