-- ===== src/Worker/Parse/Chosen.antt =====
-- Which of the candidates of an entry rss_parse_domain.py takes for its image.
use manifeed.Common.{
  ◌≡◌, refl, ◌⊎◌, inl, inr, arith, Bool, true, false, ◌&&◌, Bool-cases, Option-cases, Option, none,
  some, List, [], ◌∷◌, String, All, is_some, Outcome, ok, err, ◌>>=◌, WhenOk,
}
use manifeed.Worker.Parse.{Outside, Element}
use manifeed.Worker.Parse.Images.{
  Candidate, Found, smaller, best_from, choose_image, collect_images, extract_entry_image_url,
}
use manifeed.Worker.Parse.Places.{IsIndexed}
use manifeed.Worker.Parse.Indexed.{collect_images-IsIndexed}

abbrev pub IsIn : Candidate → List Candidate → Type 0
IsIn c [] = false ≡ true
IsIn c (d ∷ ds) = (c ≡ d) ⊎ IsIn c ds

-- A candidate without a width, or one that is no larger than the given one.
abbrev pub IsNoLarger : Candidate → Candidate → Type 0
IsNoLarger best d = (d.width ≡ none) ⊎ (smaller best d ≡ false)

-- The order of the keys is that of pairs of numbers.
smaller-largest :
    (r b c : Candidate) → smaller b c ≡ true → smaller r c ≡ false → smaller r b ≡ false
unfolding smaller
smaller-largest r b c h k = ground arith

smaller-kept : (r b c : Candidate) → smaller b c ≡ false → smaller r b ≡ false → smaller r c ≡ false
unfolding smaller
smaller-kept r b c h k = ground arith

smaller_irrefl : (c : Candidate) → smaller c c ≡ false
unfolding smaller
smaller_irrefl c = ground arith

-- A candidate of a width that no other one with a width is larger than.
abbrev pub IsLargest : Candidate → List Candidate → Type 0
IsLargest c cs = (is_some c.width ≡ true) × All (IsNoLarger c) cs

abbrev FoundFrom : Candidate → List Candidate → Type 0
FoundFrom b cs =
    (c : Candidate) × (best_from (some b) cs ≡ some c)
    × ((c ≡ b) ⊎ IsIn c cs)
    × (smaller c b ≡ false)
    × IsLargest c cs

second_false : (b c : Bool) → (b && c) ≡ false → b ≡ true → c ≡ false
second_false true c h e = h
second_false false c h e = cc

no_larger :
    (r b c : Candidate)
    → (is_some c.width && smaller b c) ≡ false
    → smaller r b ≡ false
    → IsNoLarger r c
no_larger r b c h k = elim (Option-cases c.width) [
  | inl e ↦ inl e
  | inr (w, e) ↦
      inr (smaller-kept r b c (second_false (is_some c.width) (smaller b c) h (rw e refl)) k)
]

larger :
    (b c : Candidate)
    → (is_some c.width && smaller b c) ≡ true
    → (is_some c.width ≡ true) × (smaller b c ≡ true)
larger b c h = (ground arith, ground arith)

best_from-some : (b : Candidate) (cs : List Candidate) → is_some b.width ≡ true → FoundFrom b cs
unfolding best_from
best_from-some b [] h = (b, refl, inl refl, smaller_irrefl b, (h, tt))
best_from-some b (c ∷ cs) h = elim (Bool-cases (is_some c.width && smaller b c)) [
  | inl e ↦
      let (wide, less) = larger b c e in
      let (r, found, place, top, (sized, rest)) = best_from-some c cs wide in
      (r, rw e found, inr place, smaller-largest r b c less top, (sized, (inr top, rest)))
  | inr e ↦
      let (r, found, place, top, (sized, rest)) = best_from-some b cs h in
      (
        r,
        rw e found,
        elim place [ inl same ↦ inl same | inr in_rest ↦ inr (inr in_rest) ],
        top,
        (sized, (no_larger r b c e top, rest)),
      )
]

abbrev IsSizeless : Candidate → Type 0
IsSizeless c = c.width ≡ none

-- What is taken from a list of candidates: nothing from an empty one; the first one where none has a
-- width; and otherwise a largest one.
abbrev pub IsChosen : List Candidate → Option String → Type 0
IsChosen [] o = o ≡ none
IsChosen (d ∷ ds) o =
    (All (λ c. c.width ≡ none) (d ∷ ds) × (o ≡ some d.image_url))
    ⊎ ((c : Candidate) × (o ≡ some c.image_url) × IsIn c (d ∷ ds) × IsLargest c (d ∷ ds))

no_size : (c : Candidate) → is_some c.width ≡ false → c.width ≡ none
no_size c e = ground arith

abbrev Search : List Candidate → Type 0
Search cs =
    (All IsSizeless cs × (best_from none cs ≡ none))
    ⊎ ((c : Candidate) × (best_from none cs ≡ some c) × IsIn c cs × IsLargest c cs)

best_from-none : (cs : List Candidate) → Search cs
unfolding best_from
best_from-none [] = inl (tt, refl)
best_from-none (c ∷ cs) = elim (Bool-cases (is_some c.width)) [
  | inl e ↦
      let (r, found, place, top, (sized, rest)) = best_from-some c cs e in
      inr (r, rw e found, place, (sized, (inr top, rest)))
  | inr e ↦ elim (best_from-none cs) [
    | inl (sizeless, found) ↦ inl ((no_size c e, sizeless), rw e found)
    | inr (r, found, place, (sized, rest)) ↦
        inr (r, rw e found, inr place, (sized, (inl (no_size c e), rest)))
  ]
]

pub choose_image-IsChosen : (cs : List Candidate) → IsChosen cs (choose_image cs)
unfolding choose_image
choose_image-IsChosen [] = refl
choose_image-IsChosen (c ∷ cs) = elim (best_from-none (c ∷ cs)) [
  | inl (sizeless, found) ↦ inl (sizeless, rw (found, choose_image) refl)
  | inr (r, found, place, largest) ↦ inr (r, rw (found, choose_image) refl, place, largest)
]

-- What an entry's image is, by what collecting its candidates comes to.
abbrev pub IsImage : Outcome Found → Outcome (Option String) → Type 0
IsImage (err e) image = image ≡ err e
IsImage (ok found) image =
    (chosen : Option String) × (image ≡ ok chosen)
    × IsIndexed found
    × IsChosen found.candidates chosen

-- The image of an entry is chosen among its candidates, whose URLs are cleaned and there once each,
-- and which the dict `seen` finds at their places; where collecting them raises, so does the choice.
pub extract_entry_image_url-IsImage :
    (o : Outside) (entry : Element)
    → IsImage (collect_images o entry) (extract_entry_image_url o entry)
unfolding extract_entry_image_url
extract_entry_image_url-IsImage o entry =
    chosen (collect_images o entry) (collect_images-IsIndexed o entry)
  where
    chosen :
        (found : Outcome Found)
        → WhenOk IsIndexed found
        → IsImage found (found >>= λ f. ok (choose_image f.candidates))
    chosen (err e) _ = refl
    chosen (ok found) i =
        (choose_image found.candidates, refl, i, choose_image-IsChosen found.candidates)
