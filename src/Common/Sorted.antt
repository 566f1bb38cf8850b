-- ===== src/Common/Sorted.antt =====
-- `sorted(set(texts))`: the order of texts by their characters, and the sorted list of a set.
use Prim.Native.Char.{code}
use Prim.Native.String.{String}
use mathlib.Core.Path.{◌≡◌, refl, ◌∙◌, ap}
use mathlib.Core.Bool.{Bool, true, false}
use mathlib.Core.Logic.{inl, inr}
use mathlib.Core.List.{List, [], ◌∷◌}
use native.Mathlib.Omega.{arith}
use text.Mathlib.TextEquality.{eq_iff, Char-path}
use manifeed.Common.Tests.{ltb, ◌==◌, str_eq, if◌then◌else◌, if-cases, Bool-cases}
use manifeed.Common.Text.{text_mem}
use manifeed.Common.Lists.{All}

unfoldable pub text_lt : String → String → Bool
text_lt String.[] String.[] = false
text_lt String.[] (String.◌∷◌ d t) = true
text_lt (String.◌∷◌ c s) String.[] = false
text_lt (String.◌∷◌ c s) (String.◌∷◌ d t) =
    let rest = text_lt s t in if code c == code d then rest else ltb (code c) (code d)

unfoldable pub insert_text : String → List String → List String
insert_text s [] = s ∷ []
insert_text s (t ∷ ts) =
    let rest = insert_text s ts in
    if text_lt s t then s ∷ t ∷ ts else if str_eq s t then t ∷ ts else t ∷ rest

unfoldable pub sorted_set : List String → List String
unfolding insert_text text_lt
sorted_set [] = []
sorted_set (s ∷ ss) = insert_text s (sorted_set ss)

pub text_lt_trans : (s t u : String) → text_lt s t ≡ true → text_lt t u ≡ true → text_lt s u ≡ true
unfolding text_lt
text_lt_trans String.[] String.[] u h k = cc
text_lt_trans String.[] (String.◌∷◌ d t) String.[] h k = cc
text_lt_trans String.[] (String.◌∷◌ d t) (String.◌∷◌ e u) h k = refl
text_lt_trans (String.◌∷◌ c s) String.[] u h k = cc
text_lt_trans (String.◌∷◌ c s) (String.◌∷◌ d t) String.[] h k = cc
text_lt_trans (String.◌∷◌ c s) (String.◌∷◌ d t) (String.◌∷◌ e u) h k =
    ground (arith, text_lt_trans s t u)

text_lt-total : (s t : String) → text_lt s t ≡ false → text_lt t s ≡ false → s ≡ t
unfolding text_lt
text_lt-total String.[] String.[] h k = refl
text_lt-total String.[] (String.◌∷◌ d t) h k = cc
text_lt-total (String.◌∷◌ c s) String.[] h k = cc
text_lt-total (String.◌∷◌ c s) (String.◌∷◌ d t) h k =
    let same : code c ≡ code d = ground (arith, h, k) in
    let rest = text_lt-total s t (ground (arith, h, same)) (ground (arith, k, same)) in
    (λ i. String.◌∷◌ (Char-path c d same i) (rest i))

-- Each text is below all behind it.
abbrev pub IsSortedSet : List String → Type 0
IsSortedSet [] = Unit
IsSortedSet (s ∷ ss) = All (λ t. text_lt s t ≡ true) ss × IsSortedSet ss

All-below :
    (s t : String) (us : List String)
    → text_lt s t ≡ true
    → All (λ u. text_lt t u ≡ true) us
    → All (λ u. text_lt s u ≡ true) us
All-below s t [] h _ = tt
All-below s t (u ∷ us) h (k, ks) = (text_lt_trans s t u h k, All-below s t us h ks)

All-insert :
    (t s : String) (ts : List String)
    → text_lt t s ≡ true
    → All (λ u. text_lt t u ≡ true) ts
    → All (λ u. text_lt t u ≡ true) (insert_text s ts)
unfolding insert_text
All-insert t s [] h _ = (h, tt)
All-insert t s (u ∷ us) h (k, ks) =
    if-cases (All (λ v. text_lt t v ≡ true)) (text_lt s u) _ _ (λ _. (h, (k, ks)))
      (λ _.
        if-cases (All (λ v. text_lt t v ≡ true)) (str_eq s u) _ _ (λ _. (k, ks))
          (λ _. (k, All-insert t s us h ks)))

above : (s t : String) → text_lt s t ≡ false → str_eq s t ≡ false → text_lt t s ≡ true
above s t h k = elim (Bool-cases (text_lt t s)) [
  | inl below ↦ below
  | inr not_below ↦ cc ((eq_iff s t).1 (text_lt-total s t h not_below), k)
]

insert-IsSortedSet :
    (s : String) (ts : List String) → IsSortedSet ts → IsSortedSet (insert_text s ts)
unfolding insert_text
insert-IsSortedSet s [] _ = (tt, tt)
insert-IsSortedSet s (t ∷ ts) (h, hs) =
    if-cases IsSortedSet (text_lt s t) _ _ (λ below. ((below, All-below s t ts below h), (h, hs)))
      (λ not_below.
        if-cases IsSortedSet (str_eq s t) _ _ (λ _. (h, hs))
          (λ other. (All-insert t s ts (above s t not_below other) h, insert-IsSortedSet s ts hs)))

-- The list is sorted and holds no text twice.
pub sorted_set-IsSortedSet : (ss : List String) → IsSortedSet (sorted_set ss)
unfolding sorted_set
sorted_set-IsSortedSet [] = tt
sorted_set-IsSortedSet (s ∷ ss) = insert-IsSortedSet s (sorted_set ss) (sorted_set-IsSortedSet ss)

mem-insert :
    (u s : String) (ts : List String)
    → text_mem u (insert_text s ts) ≡ (if str_eq u s then true else text_mem u ts)
unfolding insert_text
mem-insert u s [] = refl
mem-insert u s (t ∷ ts) = ground (arith, eq_iff u s, eq_iff u t, eq_iff s t, mem-insert u s ts)

-- It holds the texts that were there, and no others.
pub mem-sorted_set : (u : String) (ss : List String) → text_mem u (sorted_set ss) ≡ text_mem u ss
unfolding sorted_set
mem-sorted_set u [] = refl
mem-sorted_set u (s ∷ ss) =
    mem-insert u s (sorted_set ss) ∙ ap (λ b. if str_eq u s then true else b) (mem-sorted_set u ss)
