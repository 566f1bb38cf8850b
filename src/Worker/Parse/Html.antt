-- ===== src/Worker/Parse/Html.antt =====
-- What rss_parse_domain.py reads out of HTML in a feed: the tags of images with their attributes, by
-- its regular expressions, and texts without their markup.
use Prim.Native.Char.{code}
use Prim.Native.String.{◌++◌ as ◌<+>◌}
use manifeed.Common.{
  ◌==◌, ◌+◌, ◌-◌, is_some, Bool, true, false, not, ◌&&◌, ◌||◌, ℕ, zero, suc, Option, none, some,
  List, [], ◌∷◌, String, clean_text, lower, lstrip, text_length, text_drop, starts_with, cut,
  is_empty, is_space, if◌then◌else◌,
}
use manifeed.Worker.Parse.{Outside}

-- The number of characters of the `[^>]+>` at the start of a text; 62 is the `>`.
unfoldable pub tag_length : String → Option ℕ
tag_length s =
    let (before, after) = cut (λ c. c == 62) s in
    if is_some after && not (is_empty before) then some (text_length before + 1) else none

-- `_HTML_TAG_RE.sub(" ", s)`, behind as many characters of a tag as the number says; 60 is the `<`.
unfoldable pub strip_tags : ℕ → String → String
unfolding tag_length
strip_tags skipped String.[] = String.[]
strip_tags (suc skipped) (String.◌∷◌ c s) = strip_tags skipped s
strip_tags zero (String.◌∷◌ c s) = elim (if code c == 60 then tag_length s else none) [
  | none ↦ String.◌∷◌ c (strip_tags 0 s)
  | some n ↦ String.◌∷◌ " " (strip_tags n s)
]

abbrev pub starts_with_space : String → Bool
starts_with_space String.[] = true
starts_with_space (String.◌∷◌ c s) = is_space (code c)

-- Each run of white space as one space, and none at the end.
unfoldable pub single_spaced : String → String
single_spaced String.[] = String.[]
single_spaced (String.◌∷◌ c s) =
    let rest = single_spaced s in
    if not (is_space (code c))
    then String.◌∷◌ c rest
    else if starts_with_space rest
    then rest
    else String.◌∷◌ " " rest

-- `" ".join(s.split())`
unfoldable pub normalize_spaces : String → String
unfolding single_spaced
normalize_spaces s = lstrip (single_spaced s)

-- the characters `,.;:!?`
abbrev pub is_punctuation : ℕ → Bool
is_punctuation c = c == 44 || c == 46 || c == 59 || c == 58 || c == 33 || c == 63

abbrev pub starts_with_punctuation : String → Bool
starts_with_punctuation String.[] = false
starts_with_punctuation (String.◌∷◌ c s) = is_punctuation (code c)

-- `re.sub(r"\s+([,.;:!?])", r"\1", s)`
unfoldable pub attach_punctuation : String → String
attach_punctuation String.[] = String.[]
attach_punctuation (String.◌∷◌ c s) =
    let rest = attach_punctuation s in
    if is_space (code c) && starts_with_punctuation rest then rest else String.◌∷◌ c rest

-- `_strip_html_text`
unfoldable pub strip_html_text : Outside → Option String → Option String
unfolding strip_tags normalize_spaces attach_punctuation
strip_html_text o none = none
strip_html_text o (some value) = elim (clean_text value) [
  | none ↦ none
  | some cleaned ↦
      clean_text (attach_punctuation (normalize_spaces (strip_tags 0 (o.unescape cleaned))))
]

abbrev pub starts_with_word : Outside → String → Bool
starts_with_word o String.[] = false
starts_with_word o (String.◌∷◌ c s) = o.is_word (code c)

-- The tag that `<img\b[^>]*>` finds at the start of a text.
unfoldable pub image_tag_at : Outside → String → Option String
image_tag_at o s =
    if starts_with (lower s) "<img" && not (starts_with_word o (text_drop 4 s))
    then (let (before, after) = cut (λ c. c == 62) s in
        if is_some after then some (before <+> ">") else none)
    else none

-- `_IMAGE_TAG_RE.finditer(s)`, behind as many characters of a tag as the number says
unfoldable pub image_tags : Outside → ℕ → String → List String
unfolding image_tag_at
image_tags o skipped String.[] = []
image_tags o (suc skipped) (String.◌∷◌ c s) = image_tags o skipped s
image_tags o zero (String.◌∷◌ c s) = elim (image_tag_at o (String.◌∷◌ c s)) [
  | none ↦ image_tags o 0 s
  | some image ↦ image ∷ image_tags o (text_length image - 1) s
]

-- What `[^\s>]+` takes at the start of a text.
unfoldable pub bare_value : String → Option String
bare_value s =
    let (before, after) = cut (λ c. is_space c || c == 62) s in
    if is_empty before then none else some before

-- What stands between quotation marks of one kind at the start of a text.
unfoldable pub quoted_value : ℕ → String → Option String
quoted_value quote String.[] = none
quoted_value quote (String.◌∷◌ c s) =
    if code c == quote
    then (let (before, after) = cut (λ d. d == quote) s in
        if is_some after then some before else none)
    else none

-- The value of an attribute, at the start of a text: between double quotes, 34, between single ones,
-- 39, or bare.
unfoldable pub attribute_value : String → Option String
unfolding quoted_value bare_value
attribute_value s = elim (quoted_value 34 s) [
  | some value ↦ some value
  | none ↦ elim (quoted_value 39 s) [ some value ↦ some value | none ↦ bare_value s ]
]

-- The regular expression of `_extract_html_attribute` at one place, behind its `\b`; 61 is the `=`.
unfoldable pub attribute_at : String → String → Option String
unfolding attribute_value
attribute_at name s =
    if starts_with (lower s) name
    then elim (lstrip (text_drop (text_length name) s)) [
      | String.[] ↦ none
      | String.◌∷◌ c rest ↦ if code c == 61 then attribute_value (lstrip rest) else none
    ]
    else none

-- `re.search`, at every place that no character of a word stands in front of.
unfoldable pub search_attribute : Outside → String → Bool → String → Option String
unfolding attribute_at
search_attribute o name after_word String.[] = none
search_attribute o name after_word (String.◌∷◌ c s) =
    let rest = search_attribute o name (o.is_word (code c)) s in
    elim (if after_word then none else attribute_at name (String.◌∷◌ c s)) [
      | some value ↦ some value
      | none ↦ rest
    ]

-- `_extract_html_attribute`
unfoldable pub extract_html_attribute : Outside → String → String → Option String
unfolding search_attribute
extract_html_attribute o image name = elim (search_attribute o name false image) [
  | none ↦ none
  | some value ↦ clean_text (o.unescape value)
]
