-- ===== src/Worker/Parse/Markup.antt =====
-- Texts whose markup rss_parse_domain.py has stripped.
use Prim.Native.Char.{Char, code}
use manifeed.Common.{
  ◌≡◌, refl, sym, ◌∙◌, arith, ◌==◌, Bool, true, false, not, ◌&&◌, ◌||◌, ℕ, zero, suc, Option, none,
  some, inl, inr, Option-cases, String, is_empty, is_space, is_some, cut, lstrip, rstrip, strip,
  push_stripped, clean_text, if-cases, if◌then◌else◌,
}
use manifeed.Worker.Parse.{Outside}
use manifeed.Worker.Parse.Html.{
  tag_length, strip_tags, single_spaced, normalize_spaces, attach_punctuation, strip_html_text,
}

abbrev closes : String → Bool
closes String.[] = false
closes (String.◌∷◌ c s) = code c == 62

abbrev has_close : String → Bool
has_close String.[] = false
has_close (String.◌∷◌ c s) = code c == 62 || has_close s

-- A text without a tag: behind each `<` there is a `>` at once, or there is none at all.
abbrev pub is_tagless : String → Bool
is_tagless String.[] = true
is_tagless (String.◌∷◌ c s) = (not (code c == 60) || closes s || not (has_close s)) && is_tagless s

cut-close : (s : String) → is_some (cut (λ c. c == 62) s).1 ≡ has_close s
unfolding cut
cut-close String.[] = refl
cut-close (String.◌∷◌ c s) = ground (arith, cut-close s)

cut-empty : (s : String) → is_empty (cut (λ c. c == 62) s).0 ≡ (is_empty s || closes s)
unfolding cut
cut-empty String.[] = refl
cut-empty (String.◌∷◌ c s) =
    if-cases (λ (x : String × Option String). is_empty x.0 ≡ (code c == 62)) (code c == 62) _ _ sym
      (λ e. sym e)

-- Where no tag starts behind a `<`.
tag_length-none : (s : String) → tag_length s ≡ none → (closes s || not (has_close s)) ≡ true
unfolding tag_length
tag_length-none String.[] h = refl
tag_length-none (String.◌∷◌ c s) h =
    ground (arith, cut-close (String.◌∷◌ c s), cut-empty (String.◌∷◌ c s))

abbrev tag_at : Char → String → Option ℕ
tag_at c s = if code c == 60 then tag_length s else none

strip_tags-has_close :
    (n : ℕ) (s : String) → has_close s ≡ false → has_close (strip_tags n s) ≡ false
unfolding strip_tags
strip_tags-has_close n String.[] h = refl
strip_tags-has_close (suc n) (String.◌∷◌ c s) h = strip_tags-has_close n s (ground arith)
strip_tags-has_close zero (String.◌∷◌ c s) h = elim (Option-cases (tag_at c s)) [
  | inl e ↦ rw (e, strip_tags) (ground (arith, strip_tags-has_close 0 s))
  | inr (n, e) ↦ rw (e, strip_tags) (strip_tags-has_close n s (ground arith))
]

strip_tags-closes : (s : String) → closes s ≡ true → closes (strip_tags 0 s) ≡ true
unfolding strip_tags
strip_tags-closes String.[] h = h
strip_tags-closes (String.◌∷◌ c s) h = ground arith

pub strip_tags-tagless : (n : ℕ) (s : String) → is_tagless (strip_tags n s) ≡ true
unfolding strip_tags
strip_tags-tagless n String.[] = refl
strip_tags-tagless (suc n) (String.◌∷◌ c s) = strip_tags-tagless n s
strip_tags-tagless zero (String.◌∷◌ c s) = elim (Option-cases (tag_at c s)) [
  | inl e ↦
      rw (e, strip_tags)
        (ground (
          arith,
          e,
          strip_tags-tagless 0 s,
          tag_length-none s,
          strip_tags-closes s,
          strip_tags-has_close 0 s,
        ))
  | inr (n, e) ↦ rw (e, strip_tags) (strip_tags-tagless n s)
]

module _ where
  spaced-has_close : (s : String) → has_close (single_spaced s) ≡ has_close s
  unfolding single_spaced
  spaced-has_close String.[] = refl
  spaced-has_close (String.◌∷◌ c s) = ground (arith, spaced-has_close s)

  spaced-closes : (s : String) → closes s ≡ true → closes (single_spaced s) ≡ true
  unfolding single_spaced
  spaced-closes String.[] h = h
  spaced-closes (String.◌∷◌ c s) h = ground arith

  spaced-tagless : (s : String) → is_tagless s ≡ true → is_tagless (single_spaced s) ≡ true
  unfolding single_spaced
  spaced-tagless String.[] h = refl
  spaced-tagless (String.◌∷◌ c s) h =
      ground (arith, spaced-tagless s, spaced-closes s, spaced-has_close s)

  attach-has_close : (s : String) → has_close (attach_punctuation s) ≡ has_close s
  unfolding attach_punctuation
  attach-has_close String.[] = refl
  attach-has_close (String.◌∷◌ c s) = ground (arith, attach-has_close s)

  attach-closes : (s : String) → closes s ≡ true → closes (attach_punctuation s) ≡ true
  unfolding attach_punctuation
  attach-closes String.[] h = h
  attach-closes (String.◌∷◌ c s) h = ground arith

  attach-tagless : (s : String) → is_tagless s ≡ true → is_tagless (attach_punctuation s) ≡ true
  unfolding attach_punctuation
  attach-tagless String.[] h = refl
  attach-tagless (String.◌∷◌ c s) h =
      ground (arith, attach-tagless s, attach-closes s, attach-has_close s)

  lstrip-tagless : (s : String) → is_tagless s ≡ true → is_tagless (lstrip s) ≡ true
  unfolding lstrip
  lstrip-tagless String.[] h = refl
  lstrip-tagless (String.◌∷◌ c s) h = ground (arith, lstrip-tagless s)

  space-close : (n : ℕ) → is_space n ≡ true → (n == 62) ≡ false
  space-close n e = ground arith

  rstrip-has_close : (s : String) → has_close (rstrip s) ≡ has_close s
  unfolding rstrip
  rstrip-has_close String.[] = refl
  rstrip-has_close (String.◌∷◌ c s) = push-has_close (rstrip s) ∙ ground (arith, rstrip-has_close s)
    where
      push-has_close : (t : String) → has_close (push_stripped c t) ≡ (code c == 62 || has_close t)
      push-has_close String.[] =
          if-cases (λ t. has_close t ≡ (code c == 62 || false)) (is_space (code c)) _ _
            (λ e. sym (ground (arith, space-close (code c) e))) (λ e. refl)
      push-has_close (String.◌∷◌ d t) = refl

  rstrip-closes : (s : String) → closes s ≡ true → closes (rstrip s) ≡ true
  unfolding rstrip
  rstrip-closes String.[] h = h
  rstrip-closes (String.◌∷◌ c s) h = push-closes (rstrip s)
    where
      push-closes : (t : String) → closes (push_stripped c t) ≡ true
      push-closes String.[] = ground arith
      push-closes (String.◌∷◌ d t) = h

  push-tagless :
      (c : Char) (t : String)
      → is_tagless (String.◌∷◌ c t) ≡ true
      → is_tagless (push_stripped c t) ≡ true
  push-tagless c String.[] h =
      if-cases (λ t. is_tagless t ≡ true) (is_space (code c)) _ _ (λ e. refl) (λ e. h)
  push-tagless c (String.◌∷◌ d t) h = h

  rstrip-tagless : (s : String) → is_tagless s ≡ true → is_tagless (rstrip s) ≡ true
  unfolding rstrip
  rstrip-tagless String.[] h = refl
  rstrip-tagless (String.◌∷◌ c s) h =
      push-tagless c (rstrip s)
        (ground (arith, rstrip-tagless s, rstrip-closes s, rstrip-has_close s))

clean_text-tagless :
    (s : String) {t : String} → is_tagless s ≡ true → clean_text s ≡ some t → is_tagless t ≡ true
unfolding clean_text strip
clean_text-tagless s {t} h e = ground (arith, rstrip-tagless (lstrip s) (lstrip-tagless s h))

-- No tag is left in a text whose markup is stripped.
pub strip_html_text-tagless :
    (o : Outside) (value : Option String) {t : String}
    → strip_html_text o value ≡ some t
    → is_tagless t ≡ true
unfolding strip_html_text normalize_spaces
strip_html_text-tagless o none e = cc
strip_html_text-tagless o (some value) {t} e = elim (Option-cases (clean_text value)) [
  | inl f ↦ absurd (ground (arith, f))
  | inr (cleaned, f) ↦
      let raw = strip_tags 0 (o.unescape cleaned) in
      clean_text-tagless (attach_punctuation (normalize_spaces raw))
        (attach-tagless (normalize_spaces raw) (
          lstrip-tagless (single_spaced raw)
            (spaced-tagless raw (strip_tags-tagless 0 (o.unescape cleaned)))))
        (rw (f, strip_html_text) at e)
]
