-- ===== src/Worker/Parse/Clean.antt =====
-- Lemmas on the texts, images and dates that rss_parse_domain.py takes from an entry.
use manifeed.Common.{
  replace_z, end_of_time, ◌≡◌, refl, Option-cases, Option, none, some, inl, inr, List, [], ◌∷◌,
  String, DateTime, aware, Instant, east, All, coalesce, if-cases, if◌then◌else◌, clean_text,
  clean_optional_text, clean_text_idem, Outcome, ok, err, ◌>>=◌, ltb, leb, ◌+◌, ◌-◌, WhenOk,
  >>=-WhenOk, any-WhenOk,
}
use manifeed.Worker.Parse.{
  Outside, Element, children, elements, attributes, get, is_named, first_text, first_text_in,
  first_child, inner_text, Moment, zoneless, east_of, west_of, to_utc, caught, parse_datetime,
  parse_first_datetime, moment_in_utc,
}
use manifeed.Worker.Parse.Html.{strip_html_text}
use manifeed.Worker.Parse.Images.{Candidate, Found, extract_entry_image_url, collect_images}
use manifeed.Worker.Parse.Places.{IsCleaned}
use manifeed.Worker.Parse.Chosen.{IsIn, IsChosen, IsImage, extract_entry_image_url-IsImage}
use manifeed.Worker.Parse.Entries.{
  link_url, is_alternate, extract_entry_url, extract_entry_summary, author_of_node,
  extract_entry_author,
}

-- No text, or one that is stripped and not empty.
abbrev pub IsClean : Option String → Type 0
IsClean none = Unit
IsClean (some s) = clean_text s ≡ some s

-- No date, or one in UTC.
abbrev pub IsInUtc : Option DateTime → Type 0
IsInUtc none = Unit
IsInUtc (some d) = (t : Instant) × (d ≡ aware t (east 0))

clean_text-IsClean : (s : String) → IsClean (clean_text s)
clean_text-IsClean s = elim (Option-cases (clean_text s)) [
  | inl e ↦ rw e tt
  | inr (t, e) ↦ rw e (clean_text_idem s e)
]

optional-IsClean : (o : Option String) → IsClean (clean_optional_text o)
unfolding clean_optional_text
optional-IsClean none = tt
optional-IsClean (some s) = clean_text-IsClean s

coalesce-IsClean : (a b : Option String) → IsClean a → IsClean b → IsClean (coalesce a b)
coalesce-IsClean none b _ h = h
coalesce-IsClean (some s) b h _ = h

text_in-IsClean : (names : List String) (es : List Element) → IsClean (first_text_in names es)
unfolding first_text_in
text_in-IsClean names [] = tt
text_in-IsClean names (e ∷ es) =
    if-cases IsClean (is_named names e) _ _
      (λ _. coalesce-IsClean _ _ (clean_text-IsClean (inner_text e)) (text_in-IsClean names es))
      (λ _. text_in-IsClean names es)

pub first_text-IsClean : (names : List String) (e : Element) → IsClean (first_text names e)
unfolding first_text
first_text-IsClean names e = text_in-IsClean names (elements (children e))

stripped-IsClean : (o : Outside) (value : Option String) → IsClean (strip_html_text o value)
unfolding strip_html_text
stripped-IsClean o none = tt
stripped-IsClean o (some value) = elim (Option-cases (clean_text value)) [
  | inl e ↦ rw (e, strip_html_text) tt
  | inr (cleaned, e) ↦ rw (e, strip_html_text) (clean_text-IsClean _)
]

link_url-IsClean :
    (fallback : Option String) (links : List Element)
    → IsClean fallback
    → IsClean (link_url fallback links)
unfolding link_url
link_url-IsClean fallback [] h = h
link_url-IsClean fallback (link ∷ links) h =
    if-cases IsClean (is_named ("link" ∷ []) link) _ _
      (λ _.
        of_href (clean_optional_text (get "href" (attributes link))) (optional-IsClean _)
          (λ f k. link_url-IsClean f links k))
      (λ _. link_url-IsClean fallback links h)
  where
    of_href :
        (href : Option String)
        → IsClean href
        → ((f : Option String) → IsClean f → IsClean (link_url f links))
        → IsClean (elim href [
          | none ↦ link_url fallback links
          | some href ↦
              if is_alternate (clean_optional_text (get "rel" (attributes link)))
              then some href
              else link_url (coalesce fallback (some href)) links
        ])
    of_href none _ rest = rest fallback h
    of_href (some href) k rest =
        if-cases IsClean (is_alternate (clean_optional_text (get "rel" (attributes link)))) _ _
          (λ _. k) (λ _. rest _ (coalesce-IsClean fallback (some href) h k))

pub url-IsClean : (entry : Element) → IsClean (extract_entry_url entry)
unfolding extract_entry_url
url-IsClean entry =
    coalesce-IsClean _ _ (first_text-IsClean ("link" ∷ []) entry) (link_url-IsClean none _ tt)

in-IsClean : (c : Candidate) (cs : List Candidate) → IsIn c cs → All IsCleaned cs → IsCleaned c
in-IsClean c [] i _ = cc
in-IsClean c (d ∷ ds) (inl e) (clean, rest) = rw e clean
in-IsClean c (d ∷ ds) (inr i) (clean, rest) = in-IsClean c ds i rest

chosen-IsClean :
    (cs : List Candidate) (o : Option String) → IsChosen cs o → All IsCleaned cs → IsClean o
chosen-IsClean [] o e _ = rw e tt
chosen-IsClean (d ∷ ds) o (inl (_, e)) (clean, rest) = rw e clean
chosen-IsClean (d ∷ ds) o (inr (c, e, i, _)) clean = rw e (in-IsClean c (d ∷ ds) i clean)

pub image-IsClean :
    (o : Outside) (entry : Element) → WhenOk IsClean (extract_entry_image_url o entry)
image-IsClean o entry =
    of_image (collect_images o entry) _ (extract_entry_image_url-IsImage o entry)
  where
    of_image :
        (found : Outcome Found) (image : Outcome (Option String))
        → IsImage found image
        → WhenOk IsClean image
    of_image (err e) image h = rw h tt
    of_image (ok found) image (chosen, h, i, k) =
        rw h (chosen-IsClean found.candidates chosen k i.cleaned)

module _ (o : Outside) where
  to_utc-IsInUtc : (m : Moment) → WhenOk IsInUtc (moment_in_utc (some m))
  unfolding to_utc
  to_utc-IsInUtc (zoneless t) = (t, refl)
  to_utc-IsInUtc (east_of t d) =
      if-cases (λ r. WhenOk IsInUtc (r >>= λ x. ok (some x))) (ltb t d) _ _ (λ _. tt)
        (λ _. (t - d, refl))
  to_utc-IsInUtc (west_of t d) =
      if-cases (λ r. WhenOk IsInUtc (r >>= λ x. ok (some x))) (leb end_of_time (t + d)) _ _
        (λ _. tt) (λ _. (t + d, refl))

  moment-IsInUtc : (m : Option Moment) → WhenOk IsInUtc (moment_in_utc m)
  moment-IsInUtc none = tt
  moment-IsInUtc (some m) = to_utc-IsInUtc m

  parse_datetime-IsInUtc : (value : String) → WhenOk IsInUtc (parse_datetime o value)
  unfolding parse_datetime
  parse_datetime-IsInUtc value =
      >>=-WhenOk (λ _. Unit {0}) IsInUtc (caught (o.parsedate_to_datetime value)) _ (any-WhenOk _)
        (λ parsed _. of_date parsed)
    where
      of_date :
          (parsed : Option Moment)
          → WhenOk IsInUtc (elim parsed [
            | some moment ↦ moment_in_utc (some moment)
            | none ↦ caught (o.fromisoformat (replace_z value)) >>= moment_in_utc
          ])
      of_date (some moment) = to_utc-IsInUtc moment
      of_date none =
          >>=-WhenOk (λ _. Unit {0}) IsInUtc (caught (o.fromisoformat (replace_z value)))
            moment_in_utc (any-WhenOk _) (λ m _. moment-IsInUtc m)

  pub first_datetime-IsInUtc :
      (e : Element) (fields : List String) → WhenOk IsInUtc (parse_first_datetime o e fields)
  unfolding parse_first_datetime
  first_datetime-IsInUtc e [] = tt
  first_datetime-IsInUtc e (field ∷ fields) =
      >>=-WhenOk IsInUtc IsInUtc _ _ (of_text (first_text (field ∷ []) e))
        (λ parsed h. or_else _ parsed h (first_datetime-IsInUtc e fields))
    where
      of_text :
          (value : Option String)
          → WhenOk IsInUtc (elim value [ none ↦ ok none | some v ↦ parse_datetime o v ])
      of_text none = tt
      of_text (some v) = parse_datetime-IsInUtc v

      or_else :
          (rest : Outcome (Option DateTime)) (parsed : Option DateTime)
          → IsInUtc parsed
          → WhenOk IsInUtc rest
          → WhenOk IsInUtc (elim parsed [ some d ↦ ok (some d) | none ↦ rest ])
      or_else rest none _ k = k
      or_else rest (some d) h _ = h

  pub author-IsClean : (entry : Element) → IsClean (extract_entry_author o entry)
  unfolding extract_entry_author author_of_node
  author-IsClean entry = coalesce-IsClean _ _ (of_node (first_child ("author" ∷ []) entry)) (
      coalesce-IsClean _ _ (stripped-IsClean o (first_text ("creator" ∷ []) entry))
        (stripped-IsClean o (first_text ("author" ∷ []) entry)))
    where
      of_node : (node : Option Element) → IsClean (author_of_node o node)
      of_node none = tt
      of_node (some node) =
          coalesce-IsClean _ _ (stripped-IsClean o (first_text ("name" ∷ []) node))
            (stripped-IsClean o (some (inner_text node)))

  pub summary-IsClean : (entry : Element) → IsClean (extract_entry_summary o entry)
  unfolding extract_entry_summary
  summary-IsClean entry =
      coalesce-IsClean _ _ (first_text-IsClean ("summary" ∷ "description" ∷ []) entry) (
        coalesce-IsClean _ _ (stripped-IsClean o (first_text ("encoded" ∷ []) entry))
          (stripped-IsClean o (first_text ("content" ∷ []) entry)))
