-- ===== src/Worker/Parse/Images.antt =====
-- The image of an entry, in rss_parse_domain.py: the candidates that it collects, each with the
-- widest size that it finds for it, and the one that it takes.
use manifeed.Common.{
  ◌==◌, Bool, ◌&&◌, ◌||◌, ltb, ℕ, zero, suc, Option, none, some, List, [], ◌∷◌, ◌++◌, String,
  length, clean_text, clean_optional_text, lstrip, cut, split, is_empty, is_space, str_eq, text_mem,
  map_option, if◌then◌else◌, Outcome, ok, ◌>>=◌, is_some,
}
use manifeed.Worker.Parse.{
  Outside, Element, children, iter_children, attributes, tag, local_name, get, first_text,
}
use manifeed.Worker.Parse.Sizes.{
  Dimension, attribute_dimension, number_dimension, parse_dimension, max_dimension,
  extract_image_dimensions_from_query, parse_srcset_width,
}
use manifeed.Worker.Parse.Html.{image_tags, extract_html_attribute}

pub record Candidate : Type 0 where
  pub image_url : String
  pub width : Option ℕ
  pub height : Option ℕ

-- The list of candidates, and the dict with the place of each URL.
pub record Found : Type 0 where
  pub candidates : List Candidate
  pub seen : List (String × ℕ)

-- `seen.get(url)`
unfoldable pub place : String → List (String × ℕ) → Option ℕ
place url [] = none
place url ((key, i) ∷ rest) = if str_eq key url then some i else place url rest

abbrev pub widened : Option ℕ → Option ℕ → Candidate → Candidate
widened width height previous = record {
  image_url = previous.image_url;
  width = max_dimension (previous.width ∷ width ∷ []);
  height = max_dimension (previous.height ∷ height ∷ []);
}

-- `candidates[i] = …`
unfoldable pub widen_at : ℕ → Option ℕ → Option ℕ → List Candidate → List Candidate
widen_at i width height [] = []
widen_at zero width height (c ∷ cs) = widened width height c ∷ cs
widen_at (suc i) width height (c ∷ cs) = c ∷ widen_at i width height cs

-- A candidate with its size is new, or widens the one with its URL.
unfoldable pub record_candidate : String → Option ℕ → Option ℕ → Found → Found
unfolding widen_at place
record_candidate url width height found = elim (place url found.seen) [
  | some i ↦ record found { candidates = widen_at i width height found.candidates }
  | none ↦ record {
    candidates =
        found.candidates ++ (record { image_url = url; width = width; height = height } ∷ []);
    seen = (url, length found.candidates) ∷ found.seen;
  }
]

-- `_append_image_candidate` without a `srcset`
unfoldable pub append_image :
    Outside → Option String → Dimension → Dimension → Found → Outcome Found
unfolding record_candidate extract_image_dimensions_from_query parse_dimension max_dimension
append_image o none width height found = ok found
append_image o (some image_url) width height found = elim (clean_text (o.unescape image_url)) [
  | none ↦ ok found
  | some url ↦ do
    (query_width, query_height) ← extract_image_dimensions_from_query o url
    own_width ← parse_dimension width
    own_height ← parse_dimension height
    ok (
        record_candidate url (max_dimension (own_width ∷ query_width ∷ []))
          (max_dimension (own_height ∷ query_height ∷ [])) found)
]

-- `s.split(maxsplit=1)` of a text with no white space at its ends
abbrev pub split_once : String → String × Option String
split_once s = let (word, rest) = cut is_space s in (word, map_option lstrip rest)

-- One candidate of a `srcset`.
unfoldable pub append_srcset_candidate : Outside → Dimension → String → Found → Outcome Found
unfolding append_image parse_srcset_width
append_srcset_candidate o height raw_candidate found = elim (clean_text raw_candidate) [
  | none ↦ ok found
  | some cleaned ↦
      let (image_candidate, descriptor) = split_once cleaned in
      parse_srcset_width descriptor >>= λ width.
      append_image o (some image_candidate) (number_dimension width) height found
]

unfoldable pub append_srcset : Outside → Dimension → List String → Found → Outcome Found
unfolding append_srcset_candidate
append_srcset o height [] found = ok found
append_srcset o height (raw ∷ rest) found =
    append_srcset_candidate o height raw found >>= λ next. append_srcset o height rest next

-- `_append_image_candidate`; 44 is the comma.
unfoldable pub append_image_candidate :
    Outside → Option String → Dimension → Dimension → Option String → Found → Outcome Found
unfolding append_image append_srcset
append_image_candidate o image_url width height srcset found = do
  next ← append_image o image_url width height found
  elim (clean_optional_text (map_option o.unescape srcset)) [
    | none ↦ ok next
    | some cleaned ↦ append_srcset o height (split 44 cleaned) next
  ]

abbrev pub attribute_of : String → Element → Option String
attribute_of name node = get name (attributes node)

abbrev pub dimension_of : String → Element → Dimension
dimension_of name node = attribute_dimension (attribute_of name node)

-- `node.attrib.get("url") or node.attrib.get("href")`
abbrev pub url_or_href : Element → Option String
url_or_href node = elim (attribute_of "url" node) [
  | none ↦ attribute_of "href" node
  | some url ↦ if is_empty url then attribute_of "href" node else some url
]

-- What the loop over the nodes of an entry makes of one of them.
unfoldable pub append_node : Outside → Element → Found → Outcome Found
unfolding append_image_candidate
append_node o node found =
    let name = local_name (tag node) in
    let width = dimension_of "width" node in
    let height = dimension_of "height" node in
    let srcset = attribute_of "srcset" node in
    if str_eq name "img"
    then append_image_candidate o (attribute_of "src" node) width height srcset found
    else if text_mem name ("thumbnail" ∷ "content" ∷ "enclosure" ∷ "image" ∷ [])
    then append_image_candidate o (url_or_href node) width height srcset found
    else ok found

unfoldable pub append_nodes : Outside → List Element → Found → Outcome Found
unfolding append_node
append_nodes o [] found = ok found
append_nodes o (node ∷ nodes) found = append_node o node found >>= λ next. append_nodes o nodes next

unfoldable pub append_image_tags : Outside → List String → Found → Outcome Found
unfolding append_image_candidate
append_image_tags o [] found = ok found
append_image_tags o (image ∷ rest) found = do
  next ←
      append_image_candidate o (extract_html_attribute o image "src")
        (attribute_dimension (extract_html_attribute o image "width"))
        (attribute_dimension (extract_html_attribute o image "height"))
        (extract_html_attribute o image "srcset") found
  append_image_tags o rest next

-- `_append_html_image_candidates`
unfoldable pub append_html_image_candidates : Outside → Option String → Found → Outcome Found
unfolding append_image_tags
append_html_image_candidates o value found = elim (clean_optional_text value) [
  | none ↦ ok found
  | some cleaned_html ↦ append_image_tags o (image_tags o 0 cleaned_html) found
]

unfoldable pub append_html_fields : Outside → Element → List String → Found → Outcome Found
unfolding append_html_image_candidates
append_html_fields o entry [] found = ok found
append_html_fields o entry (field ∷ fields) found =
    append_html_image_candidates o (first_text (field ∷ []) entry) found >>= λ next.
    append_html_fields o entry fields next

abbrev pub nothing_found : Found
nothing_found = record { candidates = []; seen = [] }

-- The candidates of an entry.
unfoldable pub collect_images : Outside → Element → Outcome Found
unfolding append_nodes append_html_fields
collect_images o entry = do
  found ← append_nodes o (iter_children (children entry)) nothing_found
  append_html_fields o entry ("encoded" ∷ "content" ∷ "description" ∷ "summary" ∷ []) found

-- `d or 0`
abbrev pub or_zero : Option ℕ → ℕ
or_zero none = 0
or_zero (some d) = d

-- Whether the first candidate has the smaller key: by width, then by height.
unfoldable pub smaller : Candidate → Candidate → Bool
smaller c d =
    ltb (or_zero c.width) (or_zero d.width)
    || (or_zero c.width == or_zero d.width && ltb (or_zero c.height) (or_zero d.height))

-- `max(…, key=…)` of the candidates with a width, the first one where several are largest
unfoldable pub best_from : Option Candidate → List Candidate → Option Candidate
unfolding smaller
best_from best [] = best
best_from none (c ∷ cs) = best_from (if is_some c.width then some c else none) cs
best_from (some best) (c ∷ cs) =
    best_from (if is_some c.width && smaller best c then some c else some best) cs

-- The choice among the candidates.
unfoldable pub choose_image : List Candidate → Option String
unfolding best_from
choose_image [] = none
choose_image (c ∷ cs) = elim (best_from none (c ∷ cs)) [
  | some best ↦ some best.image_url
  | none ↦ some c.image_url
]

-- `_extract_entry_image_url`
unfoldable pub extract_entry_image_url : Outside → Element → Outcome (Option String)
unfolding collect_images choose_image
extract_entry_image_url o entry = do
  found ← collect_images o entry
  ok (choose_image found.candidates)
