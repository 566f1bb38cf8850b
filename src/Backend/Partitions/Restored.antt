-- ===== src/Backend/Partitions/Restored.antt =====
-- Rows that are put back into a partitioned table.
use manifeed.Common.{
  ◌≡◌, refl, ◌∙◌, arith, ◌⊎◌, inl, inr, ◌+◌, ◌≤◌, Bool, true, false, List, [], ◌∷◌, All, Instant,
  any, count, count-append, if-cases, if◌then◌else◌, Outcome, ok,
}
use manifeed.Backend.Partitions.Tables.{
  Partition, Table, partition_rows, all_rows, in_range, put_row, insert_row, restore_rows,
}

pub any-count_zero {ℓ} :
    {A : Type ℓ} (p : A → Bool) (xs : List A) → count p xs ≡ 0 → any p xs ≡ false
any-count_zero p [] _ = refl
any-count_zero p (x ∷ xs) h = ground (arith, any-count_zero p xs)

zero_count {ℓ} : {A : Type ℓ} (p : A → Bool) (xs : List A) → any p xs ≡ false → count p xs ≡ 0
zero_count p [] _ = refl
zero_count p (x ∷ xs) h = ground (arith, zero_count p xs)

pub any-count {ℓ} :
    {A : Type ℓ} (p : A → Bool) (xs ys : List A) → count p xs ≡ count p ys → any p xs ≡ any p ys
any-count p xs ys h =
    ground (arith, h, zero_count p xs, zero_count p ys, any-count_zero p xs, any-count_zero p ys)

module _ {A : Type 0} (date : A → Instant) where
  count-put_row :
      (p : A → Bool) (r : A) (ps : List (Partition A))
      → any (in_range date r) ps ≡ true
      → count p (partition_rows (put_row date r ps))
        ≡ (if p r then 1 else 0) + count p (partition_rows ps)
  count-put_row p r [] h = cc
  count-put_row p r (q ∷ qs) h =
      if-cases
        (λ x.
          count p (partition_rows x) ≡ (if p r then 1 else 0) + count p (partition_rows (q ∷ qs)))
        (in_range date r q) _ _
        (λ _. omega (
          arith,
          count-append p q.rows (partition_rows qs),
          count-append p (r ∷ q.rows) (partition_rows qs),
        ))
        (λ e. omega (
          arith,
          count-append p q.rows (partition_rows qs),
          count-append p q.rows (partition_rows (put_row date r qs)),
          count-put_row p r qs (ground (arith, h, e)),
        ))

  -- The bounds of the partitions stay as they are.
  any-put_row :
      (x r : A) (ps : List (Partition A))
      → any (in_range date x) (put_row date r ps) ≡ any (in_range date x) ps
  any-put_row x r [] = refl
  any-put_row x r (q ∷ qs) =
      if-cases (λ y. any (in_range date x) y ≡ any (in_range date x) (q ∷ qs)) (in_range date r q) _
        _ (λ _. refl) (λ _. ground (arith, any-put_row x r qs))

  pub count-insert_row :
      (p : A → Bool) (r : A) (t : Table A)
      → count p (all_rows (insert_row date r t)) ≡ (if p r then 1 else 0) + count p (all_rows t)
  unfolding insert_row
  count-insert_row p r t =
      if-cases (λ x. count p (all_rows x) ≡ (if p r then 1 else 0) + count p (all_rows t))
        (any (in_range date r) t.partitions) _ _
        (λ e. omega (
          arith,
          count-put_row p r t.partitions e,
          count-append p (partition_rows t.partitions) t.default_rows,
          count-append p (partition_rows (put_row date r t.partitions)) t.default_rows,
        ))
        (λ _. omega (
          arith,
          count-append p (partition_rows t.partitions) t.default_rows,
          count-append p (partition_rows t.partitions) (r ∷ t.default_rows),
        ))

  any-insert_row :
      (x r : A) (t : Table A)
      → any (in_range date x) (insert_row date r t).partitions ≡ any (in_range date x) t.partitions
  unfolding insert_row
  any-insert_row x r t =
      if-cases
        (λ (y : Table A). any (in_range date x) y.partitions ≡ any (in_range date x) t.partitions)
        (any (in_range date r) t.partitions) _ _ (λ _. any-put_row x r t.partitions) (λ _. refl)

-- What comes of putting rows back: all of them are there, and those in the default partition have a
-- property that is known of the rows that no weekly partition takes.
abbrev pub Restored : {A : Type 0} → (A → Type 0) → List A → Table A → Outcome (Table A) → Type 0
Restored {A} D rs t m =
    (t' : Table A) × (m ≡ ok t')
    × ((p : A → Bool) → count p (all_rows t') ≡ count p rs + count p (all_rows t))
    × All D t'.default_rows

module _ {A : Type 0} (date : A → Instant) (same : A → A → Bool) (refused : A → Table A → Bool)
    (D : A → Type 0) (I : List A → Table A → Type 0) (same_refl : (r : A) → same r r ≡ true)
    (step : (r : A) (rs : List A) (t : Table A)
      → I (r ∷ rs) t
      → (refused r t ≡ false) × I rs (insert_row date r t)) where
  -- A weekly partition takes the row, or it has the property.
  abbrev pub IsPlaced : Table A → A → Type 0
  IsPlaced t r = (any (in_range date r) t.partitions ≡ true) ⊎ D r

  IsPlaced-insert :
      (r : A) (t : Table A) (rs : List A)
      → All (IsPlaced t) rs
      → All (IsPlaced (insert_row date r t)) rs
  IsPlaced-insert r t [] _ = tt
  IsPlaced-insert r t (x ∷ xs) (h, hs) = (
    elim h [ inl e ↦ inl (any-insert_row date x r t ∙ e) | inr d ↦ inr d ],
    IsPlaced-insert r t xs hs,
  )

  default-insert :
      (r : A) (t : Table A)
      → IsPlaced t r
      → All D t.default_rows
      → All D (insert_row date r t).default_rows
  unfolding insert_row
  default-insert r t h ds =
      if-cases (λ (x : Table A). All D x.default_rows) (any (in_range date r) t.partitions) _ _
        (λ _. ds) (λ e. (elim h [ inl f ↦ absurd (ground (arith, e, f)) | inr d ↦ d ], ds))

  pub restore_rows-Restored :
      (rs : List A) (t : Table A)
      → ((x : A) → count (same x) rs + count (same x) (all_rows t) ≤ 1)
      → I rs t
      → All (IsPlaced t) rs
      → All D t.default_rows
      → Restored D rs t (restore_rows date same refused rs t)
  unfolding restore_rows
  restore_rows-Restored [] t unique i placed ds = (t, refl, λ p. omega arith, ds)
  restore_rows-Restored (r ∷ rs) t unique i (here, placed) ds =
      let new : any (same r) (all_rows t) ≡ false =
        any-count_zero (same r) (all_rows t) (ground (arith, unique r, same_refl r)) in
      let (accepted, later) = step r rs t i in
      let (t', found, counts, bare) =
        restore_rows-Restored rs (insert_row date r t)
          (λ x. omega (arith, unique x, count-insert_row date (same x) r t)) later
          (IsPlaced-insert r t rs placed) (default-insert r t here ds) in
      (
        t',
        rw (new, accepted, restore_rows) found,
        λ p. omega (arith, counts p, count-insert_row date p r t),
        bare,
      )
