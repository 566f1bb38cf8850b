-- ===== src/Backend/Catalog/Names.antt =====
-- The tags of a feed, against the raw ones.
use manifeed.Common.{
  ◌≡◌, refl, Bool, true, false, ◌||◌, List, [], ◌∷◌, String, is_empty, text_mem, All, arith,
  eq_refl, if-cases,
}
use manifeed.Backend.Catalog.{keep_new, clean_tag, map_names, normalize_tags}

-- No name is empty, there twice, or among those that were seen.
abbrev pub AreNew : List String → List String → Type 0
AreNew seen [] = Unit
AreNew seen (s ∷ ss) = (is_empty s ≡ false) × (text_mem s seen ≡ false) × AreNew (s ∷ seen) ss

-- A name is empty, was seen, or is kept.
abbrev pub IsKept : List String → List String → String → Type 0
IsKept seen kept s = (is_empty s || text_mem s seen || text_mem s kept) ≡ true

keep_new-AreNew : (seen ss : List String) → AreNew seen (keep_new seen ss)
unfolding keep_new
keep_new-AreNew seen [] = tt
keep_new-AreNew seen (s ∷ ss) =
    if-cases (AreNew seen) (is_empty s) _ _ (λ _. keep_new-AreNew seen ss)
      (λ filled.
        if-cases (AreNew seen) (text_mem s seen) _ _ (λ _. keep_new-AreNew seen ss)
          (λ new. (filled, new, keep_new-AreNew (s ∷ seen) ss)))

IsKept-cons :
    (seen kept : List String) (s t : String) → IsKept (s ∷ seen) kept t → IsKept seen (s ∷ kept) t
IsKept-cons seen kept s t h = ground arith

All-cons :
    (seen kept : List String) (s : String) (ts : List String)
    → All (IsKept (s ∷ seen) kept) ts
    → All (IsKept seen (s ∷ kept)) ts
All-cons seen kept s [] h = tt
All-cons seen kept s (t ∷ ts) (k, h) = (IsKept-cons seen kept s t k, All-cons seen kept s ts h)

or-true : (a b : Bool) → (a || b || true) ≡ true
or-true true b = refl
or-true false true = refl
or-true false false = refl

keep_new-IsKept : (seen ss : List String) → All (IsKept seen (keep_new seen ss)) ss
unfolding keep_new
keep_new-IsKept seen [] = tt
keep_new-IsKept seen (s ∷ ss) =
    if-cases (λ kept. All (IsKept seen kept) (s ∷ ss)) (is_empty s) _ _
      (λ empty. (rw empty, keep_new-IsKept seen ss))
      (λ filled.
        if-cases (λ kept. All (IsKept seen kept) (s ∷ ss)) (text_mem s seen) _ _
          (λ old. (rw filled (rw old), keep_new-IsKept seen ss))
          (λ new. (
            rw (eq_refl s) (or-true (is_empty s) (text_mem s seen)),
            All-cons seen (keep_new (s ∷ seen) ss) s ss (keep_new-IsKept (s ∷ seen) ss),
          )))

-- The normalised tags of a feed are not empty and are there once each, and each tag of the feed is
-- among them in its normalised form, unless that is empty.
pub normalize_tags-AreNew :
    (tags : List String)
    → AreNew [] (normalize_tags tags)
      × All (IsKept [] (normalize_tags tags)) (map_names clean_tag tags)
unfolding normalize_tags
normalize_tags-AreNew tags =
    (keep_new-AreNew [] (map_names clean_tag tags), keep_new-IsKept [] (map_names clean_tag tags))
