-- ===== src/Worker/Parse/Places.antt =====
-- The candidates for an image that rss_parse_domain.py collects from an entry: the dict `seen` and
-- the list.
use manifeed.Common.{
  ◌≡◌, refl, sym, ◌∙◌, ◌+◌, ℕ, zero, suc, arith, Bool, false, Bool-cases, Option-cases, Option,
  none, some, inl, inr, List, [], ◌∷◌, ◌++◌, length, String, All, All-append, any, is_some,
  if◌then◌else◌, str_eq, eq_iff, clean_text,
}
use manifeed.Worker.Parse.Images.{Candidate, Found, widen_at, place, record_candidate}

-- The place of the first candidate with a URL, counted from a number on.
abbrev pub place_of : String → ℕ → List Candidate → Option ℕ
place_of url k [] = none
place_of url k (c ∷ cs) = if str_eq c.image_url url then some k else place_of url (k + 1) cs

abbrev pub has_image_url : String → Candidate → Bool
has_image_url url c = str_eq c.image_url url

abbrev pub IsUnique : List Candidate → Type 0
IsUnique [] = Unit
IsUnique (c ∷ cs) = (any (has_image_url c.image_url) cs ≡ false) × IsUnique cs

abbrev pub IsCleaned : Candidate → Type 0
IsCleaned c = clean_text c.image_url ≡ some c.image_url

pub record IsIndexed (found : Found) : Type 0 where
  pub places : (url : String) → place url found.seen ≡ place_of url 0 found.candidates
  pub unique : IsUnique found.candidates
  pub cleaned : All IsCleaned found.candidates

module _ (w h : Option ℕ) where
  widen-place_of :
      (url : String) (k i : ℕ) (cs : List Candidate)
      → place_of url k (widen_at i w h cs) ≡ place_of url k cs
  unfolding widen_at
  widen-place_of url k i [] = refl
  widen-place_of url k zero (c ∷ cs) = refl
  widen-place_of url k (suc i) (c ∷ cs) = ground (arith, widen-place_of url (k + 1) i cs)

  widen-any :
      (url : String) (i : ℕ) (cs : List Candidate)
      → any (has_image_url url) (widen_at i w h cs) ≡ any (has_image_url url) cs
  unfolding widen_at
  widen-any url i [] = refl
  widen-any url zero (c ∷ cs) = refl
  widen-any url (suc i) (c ∷ cs) = ground (arith, widen-any url i cs)

  widen-IsUnique : (i : ℕ) (cs : List Candidate) → IsUnique cs → IsUnique (widen_at i w h cs)
  unfolding widen_at
  widen-IsUnique i [] _ = tt
  widen-IsUnique zero (c ∷ cs) once = once
  widen-IsUnique (suc i) (c ∷ cs) (once, rest) =
      (widen-any c.image_url i cs ∙ once, widen-IsUnique i cs rest)

  widen-IsCleaned :
      (i : ℕ) (cs : List Candidate) → All IsCleaned cs → All IsCleaned (widen_at i w h cs)
  unfolding widen_at
  widen-IsCleaned i [] _ = tt
  widen-IsCleaned zero (c ∷ cs) (clean, rest) = (clean, rest)
  widen-IsCleaned (suc i) (c ∷ cs) (clean, rest) = (clean, widen-IsCleaned i cs rest)

module _ (c : Candidate) where
  place_of-append :
      (url : String) (k : ℕ) (cs : List Candidate)
      → place_of url k (cs ++ (c ∷ [])) ≡ (
          if is_some (place_of url k cs)
          then place_of url k cs
          else if str_eq c.image_url url
          then some (k + length cs)
          else none)
  place_of-append url k [] = ground arith
  place_of-append url k (d ∷ ds) = ground (arith, place_of-append url (k + 1) ds)

  any-append_one :
      (url : String) (cs : List Candidate)
      → str_eq c.image_url url ≡ false
      → any (has_image_url url) cs ≡ false
      → any (has_image_url url) (cs ++ (c ∷ [])) ≡ false
  any-append_one url [] e _ = ground arith
  any-append_one url (d ∷ ds) e none_here = ground (arith, any-append_one url ds)

  append-IsUnique :
      (k : ℕ) (cs : List Candidate)
      → place_of c.image_url k cs ≡ none
      → IsUnique cs
      → IsUnique (cs ++ (c ∷ []))
  append-IsUnique k [] _ _ = (refl, tt)
  append-IsUnique k (d ∷ ds) free (once, rest) =
      elim (Bool-cases (str_eq d.image_url c.image_url)) [
        | inl e ↦ absurd (ground arith)
        | inr e ↦ (
          any-append_one d.image_url ds
              (ground (arith, eq_iff d.image_url c.image_url, eq_iff c.image_url d.image_url)) once,
          append-IsUnique (k + 1) ds (ground arith) rest,
        )
      ]

widen-IsIndexed :
    (w h : Option ℕ) (n : ℕ) (found : Found)
    → IsIndexed found
    → IsIndexed (record found { candidates = widen_at n w h found.candidates })
widen-IsIndexed w h n found i = record {
  places = λ u. i.places u ∙ sym (widen-place_of w h u 0 n found.candidates);
  unique = widen-IsUnique w h n found.candidates i.unique;
  cleaned = widen-IsCleaned w h n found.candidates i.cleaned;
}

append-IsIndexed :
    (c : Candidate) (found : Found)
    → IsCleaned c
    → place c.image_url found.seen ≡ none
    → IsIndexed found
    → IsIndexed (record {
      candidates = found.candidates ++ (c ∷ []);
      seen = (c.image_url, length found.candidates) ∷ found.seen;
    })
unfolding place
append-IsIndexed c found clean e i =
    let free = sym (i.places c.image_url) ∙ e in
    record {
      places = λ u.
          ground
            (arith, i.places u, place_of-append c u 0 found.candidates, eq_iff c.image_url u, free);
      unique = append-IsUnique c 0 found.candidates free i.unique;
      cleaned = All-append IsCleaned found.candidates (c ∷ []) i.cleaned (clean, tt);
    }

pub record-IsIndexed :
    (url : String) (w h : Option ℕ) (found : Found)
    → clean_text url ≡ some url
    → IsIndexed found
    → IsIndexed (record_candidate url w h found)
unfolding record_candidate
record-IsIndexed url w h found clean i = elim (Option-cases (place url found.seen)) [
  | inr (n, e) ↦ rw (e, record_candidate) (widen-IsIndexed w h n found i)
  | inl e ↦
      rw (e, record_candidate)
        (append-IsIndexed (record { image_url = url; width = w; height = h }) found clean e i)
]
