-- ===== src/Worker/Parse/Sizes.antt =====
-- The sizes of images in rss_parse_domain.py: of attributes, of a `srcset`, and of a URL's query.
use Prim.Native.Char.{code}
use manifeed.Common.{
  is_digit, ◌==◌, ◌+◌, ◌-◌, ◌*◌, Bool, false, ltb, ℕ, Option, none, some, List, [], ◌∷◌, String,
  clean_optional_text, lower, text_length, text_take, is_empty, text_mem, if◌then◌else◌, Outcome,
  ok, err, Error, ◌>>=◌,
}
use manifeed.Worker.Parse.{Outside}

-- What is given as a size: nothing, a text, or a number.
pub data Dimension : Type 0 where
  absent : Dimension
  text : String → Dimension
  number : ℕ → Dimension

abbrev pub attribute_dimension : Option String → Dimension
attribute_dimension none = absent
attribute_dimension (some s) = text s

abbrev pub number_dimension : Option ℕ → Dimension
number_dimension none = absent
number_dimension (some n) = number n

-- The digits at the start of a text.
abbrev digits_at : String → String
digits_at String.[] = String.[]
digits_at (String.◌∷◌ c s) =
    let rest = digits_at s in if is_digit (code c) then String.◌∷◌ c rest else String.[]

-- `_DIGIT_RE.search(s)`, or an empty text
unfoldable pub first_digits : String → String
first_digits String.[] = String.[]
first_digits (String.◌∷◌ c s) =
    let rest = first_digits s in if is_digit (code c) then digits_at (String.◌∷◌ c s) else rest

abbrev number_from : ℕ → String → ℕ
number_from n String.[] = n
number_from n (String.◌∷◌ c s) = number_from (n * 10 + (code c - 48)) s

-- the most digits that Python's `int` reads
abbrev pub max_str_digits : ℕ
max_str_digits = 4300

abbrev pub positive : ℕ → Option ℕ
positive n = if n == 0 then none else some n

-- `_parse_dimension`
unfoldable pub parse_dimension : Dimension → Outcome (Option ℕ)
unfolding first_digits
parse_dimension absent = ok none
parse_dimension (number n) = ok (positive n)
parse_dimension (text s) =
    let digits = first_digits s in
    if is_empty digits
    then ok none
    else if ltb max_str_digits (text_length digits)
    then err Error.value_error
    else ok (positive (number_from 0 digits))

abbrev max_step : Option ℕ → ℕ → Option ℕ
max_step none v = some v
max_step (some resolved) v = if ltb resolved v then some v else some resolved

unfoldable pub max_from : Option ℕ → List (Option ℕ) → Option ℕ
max_from resolved [] = resolved
max_from resolved (none ∷ vs) = max_from resolved vs
max_from resolved (some v ∷ vs) =
    if v == 0 then max_from resolved vs else max_from (max_step resolved v) vs

-- `_max_dimension`
unfoldable pub max_dimension : List (Option ℕ) → Option ℕ
unfolding max_from
max_dimension vs = max_from none vs

-- The loop over the parameters of a URL.
unfoldable pub query_dimensions :
    Option ℕ → Option ℕ → List (String × String) → Outcome (Option ℕ × Option ℕ)
unfolding parse_dimension max_dimension
query_dimensions width height [] = ok (width, height)
query_dimensions width height ((key, value) ∷ rest) =
    if text_mem (lower key) ("w" ∷ "width" ∷ [])
    then parse_dimension (text value)
      >>= (λ d. query_dimensions (max_dimension (width ∷ d ∷ [])) height rest)
    else if text_mem (lower key) ("h" ∷ "height" ∷ [])
    then parse_dimension (text value)
      >>= (λ d. query_dimensions width (max_dimension (height ∷ d ∷ [])) rest)
    else query_dimensions width height rest

unfoldable pub extract_image_dimensions_from_query :
    Outside → String → Outcome (Option ℕ × Option ℕ)
unfolding query_dimensions
extract_image_dimensions_from_query o image_url = do
  pairs ← o.parse_query image_url
  query_dimensions none none pairs

-- `s[:-1]`
abbrev without_last : String → String
without_last s = text_take (text_length s - 1) s

-- `s.endswith("w")`
abbrev ends_with_w : String → Bool
ends_with_w String.[] = false
ends_with_w (String.◌∷◌ c String.[]) = code c == 119
ends_with_w (String.◌∷◌ c (String.◌∷◌ d s)) = ends_with_w (String.◌∷◌ d s)

unfoldable pub parse_srcset_width : Option String → Outcome (Option ℕ)
unfolding parse_dimension
parse_srcset_width value = elim (clean_optional_text value) [
  | none ↦ ok none
  | some descriptor ↦
      if ends_with_w (lower descriptor)
      then parse_dimension (text (without_last (lower descriptor)))
      else ok none
]
