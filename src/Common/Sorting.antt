-- ===== src/Common/Sorting.antt =====
-- Sorting by insertion, as ORDER BY, with OFFSET and LIMIT.
use Prim.Native.Nat.{ℕ, zero, suc, ◌+◌}
use mathlib.Core.Path.{◌≡◌, refl, sym, ◌∙◌, ap}
use mathlib.Core.Bool.{Bool, true, false}
use mathlib.Core.List.{List, [], ◌∷◌, ◌++◌, map}
use native.Mathlib.Omega.{arith}
use manifeed.Common.Tests.{if◌then◌else◌, if-cases}
use manifeed.Common.Lists.{All, any, count, length}

zero_plus : (n : ℕ) → zero + n ≡ n
zero_plus n = omega arith

suc_plus : (m n : ℕ) → suc m + n ≡ suc (m + n)
suc_plus m n = omega arith

module _ {ℓ} {A : Type ℓ} where
  abbrev pub take : ℕ → List A → List A
  take zero xs = []
  take (suc n) [] = []
  take (suc n) (x ∷ xs) = x ∷ take n xs

  abbrev pub drop : ℕ → List A → List A
  drop zero xs = xs
  drop (suc n) [] = []
  drop (suc n) (x ∷ xs) = drop n xs

  pub take-nil : (n : ℕ) → take n [] ≡ []
  take-nil zero = refl
  take-nil (suc n) = refl

  pub drop-nil : (n : ℕ) → drop n [] ≡ []
  drop-nil zero = refl
  drop-nil (suc n) = refl

  pub take-add : (m n : ℕ) (xs : List A) → take (m + n) xs ≡ take m xs ++ take n (drop m xs)
  take-add zero n xs = ap (λ k. take k xs) (zero_plus n)
  take-add (suc m) n [] = take-nil (suc m + n) ∙ sym (take-nil n)
  take-add (suc m) n (x ∷ xs) =
      ap (λ k. take k (x ∷ xs)) (suc_plus m n) ∙ ap (λ r. x ∷ r) (take-add m n xs)

  pub drop-add : (m n : ℕ) (xs : List A) → drop (m + n) xs ≡ drop n (drop m xs)
  drop-add zero n xs = ap (λ k. drop k xs) (zero_plus n)
  drop-add (suc m) n [] = drop-nil (suc m + n) ∙ sym (drop-nil n)
  drop-add (suc m) n (x ∷ xs) = ap (λ k. drop k (x ∷ xs)) (suc_plus m n) ∙ drop-add m n xs

  pub take-length : (xs : List A) → take (length xs) xs ≡ xs
  take-length [] = refl
  take-length (x ∷ xs) = ap (λ r. x ∷ r) (take-length xs)

  -- Each item stands in front of those behind it, by a relation that the test decides.
  abbrev pub IsOrderedBy {κ} : (A → A → Type κ) → List A → Type κ
  IsOrderedBy R [] = Unit
  IsOrderedBy R (x ∷ xs) = All (R x) xs × IsOrderedBy R xs

module _ {ℓ} {A : Type ℓ} (before : A → A → Bool) where
  abbrev pub insert_by : A → List A → List A
  insert_by x [] = x ∷ []
  insert_by x (y ∷ ys) = let rest = insert_by x ys in if before x y then x ∷ y ∷ ys else y ∷ rest

  abbrev pub sort_by : List A → List A
  sort_by [] = []
  sort_by (x ∷ xs) = insert_by x (sort_by xs)

  count-insert_by :
      (p : A → Bool) (x : A) (ys : List A)
      → count p (insert_by x ys) ≡ (if p x then 1 else 0) + count p ys
  count-insert_by p x [] = refl
  count-insert_by p x (y ∷ ys) = ground (arith, count-insert_by p x ys)

  pub count-sort_by : (p : A → Bool) (xs : List A) → count p (sort_by xs) ≡ count p xs
  count-sort_by p [] = refl
  count-sort_by p (x ∷ xs) =
      count-insert_by p x (sort_by xs) ∙ ap (λ n. (if p x then 1 else 0) + n) (count-sort_by p xs)

module _ {ℓ} {A : Type ℓ} (before : A → A → Bool) where
  length-insert_by : (x : A) (ys : List A) → length (insert_by before x ys) ≡ suc (length ys)
  length-insert_by x [] = refl
  length-insert_by x (y ∷ ys) = ground (arith, length-insert_by x ys)

  any-insert_by :
      (p : A → Bool) (x : A) (ys : List A)
      → any p (insert_by before x ys) ≡ (if p x then true else any p ys)
  any-insert_by p x [] = refl
  any-insert_by p x (y ∷ ys) = ground (arith, any-insert_by p x ys)

  pub any-sort_by : (p : A → Bool) (xs : List A) → any p (sort_by before xs) ≡ any p xs
  any-sort_by p [] = refl
  any-sort_by p (x ∷ xs) =
      any-insert_by p x (sort_by before xs) ∙ ap (λ b. if p x then true else b) (any-sort_by p xs)

  pub length-sort_by : (xs : List A) → length (sort_by before xs) ≡ length xs
  length-sort_by [] = refl
  length-sort_by (x ∷ xs) = length-insert_by x (sort_by before xs) ∙ ap suc (length-sort_by xs)

-- The order of mapped items is the mapped order.
module _ {ℓ ℓ' κ} {A : Type ℓ} {B : Type ℓ'} (R : B → B → Type κ) (f : A → B) where
  All-map : (x : A) (ys : List A) → All (R (f x)) (map f ys) → All (λ y. R (f x) (f y)) ys
  All-map x [] _ = tt
  All-map x (y ∷ ys) (h, hs) = (h, All-map x ys hs)

  pub ordered-map : (xs : List A) → IsOrderedBy R (map f xs) → IsOrderedBy (λ x y. R (f x) (f y)) xs
  ordered-map [] _ = tt
  ordered-map (x ∷ xs) (h, hs) = (All-map x xs h, ordered-map xs hs)

-- What holds of every item holds of every sorted item.
module _ {ℓ κ} {A : Type ℓ} (before : A → A → Bool) (P : A → Type κ) where
  All-inserted : (x : A) (ys : List A) → P x → All P ys → All P (insert_by before x ys)
  All-inserted x [] h _ = (h, tt)
  All-inserted x (y ∷ ys) h (k, ks) =
      if-cases (All P) (before x y) _ _ (λ _. (h, (k, ks))) (λ _. (k, All-inserted x ys h ks))

  pub All-sort_by : (xs : List A) → All P xs → All P (sort_by before xs)
  All-sort_by [] _ = tt
  All-sort_by (x ∷ xs) (h, hs) = All-inserted x (sort_by before xs) h (All-sort_by xs hs)

-- A test that decides an order sorts by it.
module _ {ℓ κ} {A : Type ℓ} (before : A → A → Bool) (R : A → A → Type κ)
    (is_first : (x y : A) → before x y ≡ true → R x y)
    (is_later : (x y : A) → before x y ≡ false → R y x)
    (R_trans : (x y z : A) → R x y → R y z → R x z) where
  All-behind : (x y : A) (zs : List A) → R x y → All (R y) zs → All (R x) zs
  All-behind x y [] h _ = tt
  All-behind x y (z ∷ zs) h (k, ks) = (R_trans x y z h k, All-behind x y zs h ks)

  insert_by-IsOrderedBy :
      (x : A) (ys : List A) → IsOrderedBy R ys → IsOrderedBy R (insert_by before x ys)
  insert_by-IsOrderedBy x [] _ = (tt, tt)
  insert_by-IsOrderedBy x (y ∷ ys) (h, hs) =
      if-cases (IsOrderedBy R) (before x y) _ _
        (λ e. let r = is_first x y e in ((r, All-behind x y ys r h), (h, hs)))
        (λ e. (All-inserted before (R y) x ys (is_later x y e) h, insert_by-IsOrderedBy x ys hs))

  pub sort_by-IsOrderedBy : (xs : List A) → IsOrderedBy R (sort_by before xs)
  sort_by-IsOrderedBy [] = tt
  sort_by-IsOrderedBy (x ∷ xs) =
      insert_by-IsOrderedBy x (sort_by before xs) (sort_by-IsOrderedBy xs)
