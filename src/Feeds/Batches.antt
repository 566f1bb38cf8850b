-- ===== src/Feeds/Batches.antt =====
-- The batches that a list of feeds is cut into.
use mathlib.Core.List.{append_assoc}
use manifeed.Common.{
  ℕ, ◌≤◌, ◌<◌, ◌≡◌, refl, ap, ◌∙◌, List, [], ◌∷◌, ◌++◌, arith, length, length-append, leb, if-cases,
}
use manifeed.Feeds.{ScrapeFeed, batches_from, iter_feed_batches}

-- The feeds of all batches.
abbrev pub concat : List (List ScrapeFeed) → List ScrapeFeed
concat [] = []
concat (b ∷ bs) = b ++ concat bs

-- Every batch holds between one and `size` feeds, and all but the last hold `size`.
abbrev pub IsCut : ℕ → List (List ScrapeFeed) → Type 0
IsCut size [] = Unit
IsCut size (b ∷ []) = (0 < length b) × (length b ≤ size)
IsCut size (b ∷ c ∷ bs) = (length b ≡ size) × IsCut size (c ∷ bs)

concat-batches_from :
    (size : ℕ) (batch fs : List ScrapeFeed) → concat (batches_from size batch fs) ≡ batch ++ fs
unfolding batches_from
concat-batches_from size [] [] = refl
concat-batches_from size (b ∷ bs) [] = refl
concat-batches_from size batch (f ∷ fs) =
    if-cases (λ bs. concat bs ≡ batch ++ f ∷ fs) (leb size (length (batch ++ f ∷ [])))
      ((batch ++ f ∷ []) ∷ batches_from size [] fs) (batches_from size (batch ++ f ∷ []) fs)
      (λ _.
        ap (λ l. (batch ++ f ∷ []) ++ l) (concat-batches_from size [] fs)
        ∙ append_assoc batch (f ∷ []) fs)
      (λ _. concat-batches_from size (batch ++ f ∷ []) fs ∙ append_assoc batch (f ∷ []) fs)

IsCut-cons :
    (size : ℕ) (b : List ScrapeFeed) (bs : List (List ScrapeFeed))
    → 0 < size
    → length b ≡ size
    → IsCut size bs
    → IsCut size (b ∷ bs)
IsCut-cons size b [] h e c = omega arith
IsCut-cons size b (d ∷ bs) h e c = (e, c)

batches_from-IsCut :
    (size : ℕ) (batch fs : List ScrapeFeed)
    → 0 < size
    → length batch < size
    → IsCut size (batches_from size batch fs)
unfolding batches_from
batches_from-IsCut size [] [] h lt = tt
batches_from-IsCut size (b ∷ bs) [] h lt = omega arith
batches_from-IsCut size batch (f ∷ fs) h lt =
    if-cases (IsCut size) (leb size (length (batch ++ f ∷ [])))
      ((batch ++ f ∷ []) ∷ batches_from size [] fs) (batches_from size (batch ++ f ∷ []) fs)
      (λ full.
        IsCut-cons size (batch ++ f ∷ []) (batches_from size [] fs) h
          (ground (arith, length-append batch (f ∷ []))) (batches_from-IsCut size [] fs h h))
      (λ short.
        batches_from-IsCut size (batch ++ f ∷ []) fs h
          (ground (arith, length-append batch (f ∷ []))))

-- The batches are the feeds, cut in order: every batch holds at least one and at most `size` feeds,
-- and all but the last hold exactly `size`.
pub iter_feed_batches-IsCut :
    (size : ℕ) (feeds : List ScrapeFeed)
    → 0 < size
    → (concat (iter_feed_batches size feeds) ≡ feeds) × IsCut size (iter_feed_batches size feeds)
unfolding iter_feed_batches
iter_feed_batches-IsCut size feeds h =
    (concat-batches_from size [] feeds, batches_from-IsCut size [] feeds h h)
