-- ===== src/Worker/Parse.antt =====
-- worker-rss-scrapper/app/domain/rss_parse_domain.py: the tree of a feed, the texts of its nodes, and
-- dates. XML itself, HTML's entities, and the parsers of dates and of URLs are the standard library's
-- and are given. A tag of a parsed tree is always a text. Digits are ASCII.
pub mod Html
pub mod Sizes
pub mod Images
pub mod Entries
pub mod Chosen
pub mod Places
pub mod Indexed
pub mod Markup
pub mod Clean
pub mod Payloads
pub mod OutOfTime
use Prim.Native.Char.{code}
use Prim.Native.String.{◌++◌ as ◌<+>◌}
use manifeed.Common.{
  replace_z, end_of_time, ◌-◌, ◌+◌, ◌≤◌, leb, ltb, ◌==◌, Bool, true, false, not, ◌&&◌, ℕ, zero, suc,
  Option, none, some, List, [], ◌∷◌, ◌++◌, str_eq, String, DateTime, aware, east, clean_text,
  clean_optional_text, lower, lstrip, is_empty, is_space, text_mem, days, coalesce, if◌then◌else◌,
  Outcome, ok, err, Error, ◌>>=◌,
}

abbrev pub Attributes : Type 0
Attributes = List (String × String)

-- An element: its tag, its attributes, the text in front of its first child, and its children. A
-- child stands with the text behind it, its tail.
mutual
  pub data Element : Type 0 where
    element : String → Attributes → String → Children → Element

  pub data Children : Type 0 where
    no_child : Children
    child : Element → String → Children → Children

abbrev pub tag : Element → String
tag (element t attrib text cs) = t

abbrev pub attributes : Element → Attributes
attributes (element t attrib text cs) = attrib

abbrev pub children : Element → Children
children (element t attrib text cs) = cs

-- `for child in node`
unfoldable pub elements : Children → List Element
elements no_child = []
elements (child e tail cs) = e ∷ elements cs

unfoldable mutual
  -- `node.iter()`: the node and what is below it, in the order of the document
  pub iter : Element → List Element
  iter (element t attrib text cs) = element t attrib text cs ∷ iter_children cs

  pub iter_children : Children → List Element
  iter_children no_child = []
  iter_children (child e tail cs) = iter e ++ iter_children cs

unfoldable mutual
  -- `"".join(node.itertext())`
  pub inner_text : Element → String
  inner_text (element t attrib text cs) = text <+> children_text cs

  pub children_text : Children → String
  children_text no_child = ""
  children_text (child e tail cs) = inner_text e <+> (tail <+> children_text cs)

-- `attrib.get(name)`
unfoldable pub get : String → Attributes → Option String
get name [] = none
get name ((key, value) ∷ rest) = if str_eq key name then some value else get name rest

-- `s.rsplit(sep, 1)[-1]`, where the separator is in the text
unfoldable pub behind_last : ℕ → String → Option String
behind_last sep String.[] = none
behind_last sep (String.◌∷◌ c s) =
    coalesce (behind_last sep s) (if code c == sep then some s else none)

-- `_local_name`: a tag without its namespace, which ends with a brace, 125, or its prefix, with 58
unfoldable pub local_name : String → String
unfolding behind_last
local_name t = elim (behind_last 125 t) [
  | some name ↦ lower name
  | none ↦ elim (behind_last 58 t) [ some name ↦ lower name | none ↦ lower t ]
]

abbrev pub is_named : List String → Element → Bool
is_named names e = text_mem (local_name (tag e)) names

unfoldable pub first_named : List String → List Element → Option Element
first_named names [] = none
first_named names (e ∷ es) = if is_named names e then some e else first_named names es

unfoldable pub first_child : List String → Element → Option Element
unfolding first_named
first_child names e = first_named names (elements (children e))

unfoldable pub first_text_in : List String → List Element → Option String
first_text_in names [] = none
first_text_in names (e ∷ es) =
    let rest = first_text_in names es in
    if is_named names e then coalesce (clean_text (inner_text e)) rest else rest

unfoldable pub first_text : List String → Element → Option String
unfolding first_text_in
first_text names e = first_text_in names (elements (children e))

-- A date as it is written, in microseconds since 0001-01-01 of its own clock, without a zone or with
-- the distance of its zone to the east or to the west of Greenwich.
pub data Moment : Type 0 where
  zoneless : ℕ → Moment
  east_of west_of : ℕ → ℕ → Moment

-- `replace(tzinfo=utc)`, or `astimezone(utc)`, which fails outside of the years 1 to 9999.
unfoldable pub to_utc : Moment → Outcome DateTime
to_utc (zoneless t) = ok (aware t (east 0))
to_utc (east_of t d) = if ltb t d then err Error.overflow_error else ok (aware (t - d) (east 0))
to_utc (west_of t d) =
    if leb end_of_time (t + d) then err Error.overflow_error else ok (aware (t + d) (east 0))

-- What the standard library gives. The parsers of dates raise `value_error` for the errors that the
-- program catches; `parse_query` is `parse_qsl(urlsplit(url).query)`, which may raise; `is_word` says
-- which characters `\w` matches.
pub record Outside : Type 0 where
  pub fromstring : String → Option Element
  pub unescape : String → String
  pub parsedate_to_datetime : String → Outcome Moment
  pub fromisoformat : String → Outcome Moment
  pub parse_query : String → Outcome (List (String × String))
  pub is_word : ℕ → Bool

-- `try: … except ValueError: …`
abbrev pub caught {ℓ} : {A : Type ℓ} → Outcome A → Outcome (Option A)
caught (ok a) = ok (some a)
caught (err Error.value_error) = ok none
caught (err e) = err e

abbrev pub moment_in_utc : Option Moment → Outcome (Option DateTime)
moment_in_utc none = ok none
moment_in_utc (some moment) = to_utc moment >>= λ d. ok (some d)

-- `_parse_datetime`, of a text
unfoldable pub parse_datetime : Outside → String → Outcome (Option DateTime)
unfolding replace_z to_utc
parse_datetime o value = do
  parsed ← caught (o.parsedate_to_datetime value)
  elim parsed [
    | some moment ↦ moment_in_utc (some moment)
    | none ↦ caught (o.fromisoformat (replace_z value)) >>= moment_in_utc
  ]

unfoldable pub parse_first_datetime : Outside → Element → List String → Outcome (Option DateTime)
unfolding parse_datetime
parse_first_datetime o e [] = ok none
parse_first_datetime o e (field ∷ fields) =
    let rest = parse_first_datetime o e fields in
    (elim (first_text (field ∷ []) e) [ none ↦ ok none | some value ↦ parse_datetime o value ])
    >>= λ parsed. elim parsed [ some d ↦ ok (some d) | none ↦ rest ]
