-- ===== src/Backend/SourceReads/Groups.antt =====
-- The groups of the rows of the stored articles.
use manifeed.Common.{
  ◌≡◌, refl, sym, ◌∙◌, ap, arith, ◌==◌, ==_iff, max, ℕ, Bool, true, false, ◌&&◌, some, List, [],
  ◌∷◌, All, Instant, any, any-update, count, count-update, filter, update, is_some, if-cases,
  if◌then◌else◌,
}
use manifeed.Db.{Source}
use manifeed.Backend.SourceReads.{Group, is_group, raised_to, group_by_id, last_row}

abbrev pub is_id : ℕ → Source → Bool
is_id n s = s.id == n

-- What holds at a number holds at one that is equal by the test.
at_equal : (p : ℕ → Bool) (m n : ℕ) (b : Bool) → p m ≡ b → (m == n) ≡ true → p n ≡ b
at_equal p m n b h e = ap p (sym ((==_iff m n).0 e)) ∙ h

pub any-group : (n : ℕ) (ss : List Source) → any (is_group n) (group_by_id ss) ≡ any (is_id n) ss
unfolding group_by_id
any-group n [] = refl
any-group n (s ∷ ss) =
    if-cases (λ gs. any (is_group n) gs ≡ any (is_id n) (s ∷ ss))
      (any (is_group s.id) (group_by_id ss)) _ _
      (λ e.
        any-update (is_group n) (is_group s.id) (raised_to s.published_at) (group_by_id ss)
          (λ g. refl)
        ∙ if-cases (λ b. any (is_group n) (group_by_id ss) ≡ b) (s.id == n) true _
            (at_equal (λ m. any (is_group m) (group_by_id ss)) s.id n true e) (λ _. any-group n ss))
      (λ e. ground (arith, any-group n ss))

-- No two groups have one id.
pub count-group :
    (n : ℕ) (ss : List Source)
    → count (is_group n) (group_by_id ss) ≡ (if any (is_id n) ss then 1 else 0)
unfolding group_by_id
count-group n [] = refl
count-group n (s ∷ ss) =
    if-cases (λ gs. count (is_group n) gs ≡ (if any (is_id n) (s ∷ ss) then 1 else 0))
      (any (is_group s.id) (group_by_id ss)) _ _
      (λ e.
        count-update (is_group n) (is_group s.id) (raised_to s.published_at) (group_by_id ss)
          (λ g. refl)
        ∙ ground (
          arith,
          count-group n ss,
          at_equal (λ m. any (is_id m) ss) s.id n true (sym (any-group s.id ss) ∙ e),
        ))
      (λ e. ground (
        arith,
        count-group n ss,
        at_equal (λ m. any (is_id m) ss) s.id n false (sym (any-group s.id ss) ∙ e),
      ))

pub any-filter :
    (p q : Source → Bool) (ss : List Source) → any p (filter q ss) ≡ any (λ s. p s && q s) ss
any-filter p q [] = refl
any-filter p q (s ∷ ss) = ground (arith, any-filter p q ss)

pub last_row-some : (n : ℕ) (ss : List Source) → is_some (last_row (is_id n) ss) ≡ any (is_id n) ss
last_row-some n [] = refl
last_row-some n (s ∷ ss) = ground (arith, last_row-some n ss)

pub last_row-holds :
    (n : ℕ) (ss : List Source) {s : Source} → last_row (is_id n) ss ≡ some s → s.id ≡ n
last_row-holds n [] e = cc
last_row-holds n (s ∷ ss) {s = r} e = ground (arith, last_row-holds n ss {s = r})

-- The latest date of the rows with an id.
abbrev pub latest : ℕ → List Source → Instant
latest n [] = 0
latest n (s ∷ ss) = let rest = latest n ss in if s.id == n then max s.published_at rest else rest

-- A group is one of the rows' ids, with the latest date of its rows.
abbrev pub IsKey : List Source → Group → Type 0
IsKey ss g = (any (is_id g.source_id) ss ≡ true) × (g.sort_published_at ≡ latest g.source_id ss)

latest-none : (n : ℕ) (ss : List Source) → any (is_id n) ss ≡ false → latest n ss ≡ 0
latest-none n [] _ = refl
latest-none n (s ∷ ss) h = ground (arith, latest-none n ss)

module _ (s : Source) (ss : List Source) where
  raised-IsKey :
      (gs : List Group)
      → All (IsKey ss) gs
      → All (IsKey (s ∷ ss)) (update (is_group s.id) (raised_to s.published_at) gs)
  raised-IsKey [] _ = tt
  raised-IsKey (g ∷ gs) ((known, date), rest) = (
    if-cases (IsKey (s ∷ ss)) (g.source_id == s.id) _ _
        (λ e. (ground (arith, e), ground (arith, e, date)))
        (λ e. (ground (arith, e, known), ground (arith, e, date))),
    raised-IsKey gs rest,
  )

  kept-IsKey :
      (gs : List Group)
      → any (is_group s.id) gs ≡ false
      → All (IsKey ss) gs
      → All (IsKey (s ∷ ss)) gs
  kept-IsKey [] _ _ = tt
  kept-IsKey (g ∷ gs) e ((known, date), rest) =
      ((ground (arith, e, known), ground (arith, e, date)), kept-IsKey gs (ground (arith, e)) rest)

pub groups-IsKey : (ss : List Source) → All (IsKey ss) (group_by_id ss)
unfolding group_by_id
groups-IsKey [] = tt
groups-IsKey (s ∷ ss) =
    if-cases (All (IsKey (s ∷ ss))) (any (is_group s.id) (group_by_id ss)) _ _
      (λ e. raised-IsKey s ss (group_by_id ss) (groups-IsKey ss))
      (λ e.
        let free : any (is_id s.id) ss ≡ false = sym (any-group s.id ss) ∙ e in
        (
          (ground arith, ground (arith, latest-none s.id ss free)),
          kept-IsKey s ss (group_by_id ss) e (groups-IsKey ss),
        ))
