-- ===== src/Worker/Parse/Entries.antt =====
-- The entries of a feed, in rss_parse_domain.py: its nodes, what each entry says, and the date of
-- the feed.
use manifeed.Common.{
  Bool, true, filter, Option, none, some, List, [], ◌∷◌, String, DateTime, clean_optional_text,
  is_empty, str_eq, coalesce, strip, if◌then◌else◌, Outcome, ok, err, Error, ◌>>=◌,
}
use manifeed.Worker.Normalize.{Entry}
use manifeed.Worker.Parse.{
  Outside, Element, children, elements, iter, attributes, tag, local_name, is_named, get,
  first_child, first_text, inner_text, parse_first_datetime,
}
use manifeed.Worker.Parse.Html.{strip_html_text}
use manifeed.Worker.Parse.Images.{extract_entry_image_url}

-- `_extract_entry_nodes`
unfoldable pub extract_entry_nodes : Element → List Element
extract_entry_nodes root =
    let name = local_name (tag root) in
    if str_eq name "rss"
    then elim (first_child ("channel" ∷ []) root) [
      | none ↦ []
      | some channel ↦ filter (is_named ("item" ∷ [])) (elements (children channel))
    ]
    else if str_eq name "feed"
    then filter (is_named ("entry" ∷ [])) (elements (children root))
    else filter (is_named ("item" ∷ "entry" ∷ [])) (iter root)

abbrev pub last_modified_of_root : Outside → Element → Outcome (Option DateTime)
last_modified_of_root o root =
    parse_first_datetime o root ("updated" ∷ "lastbuilddate" ∷ "pubdate" ∷ [])

-- `_extract_last_modified`
unfoldable pub extract_last_modified : Outside → Element → Outcome (Option DateTime)
extract_last_modified o root =
    let of_root = last_modified_of_root o root in
    if str_eq (local_name (tag root)) "rss"
    then elim (first_child ("channel" ∷ []) root) [
      | none ↦ of_root
      | some channel ↦
          parse_first_datetime o channel ("lastbuilddate" ∷ "pubdate" ∷ "updated" ∷ []) >>= λ d.
          elim d [ some t ↦ ok (some t) | none ↦ of_root ]
    ]
    else of_root

-- Whether `rel` leaves the link the entry's own.
abbrev pub is_alternate : Option String → Bool
is_alternate none = true
is_alternate (some rel) = str_eq rel "alternate"

-- The loop over the links, with the first one that is of another kind.
unfoldable pub link_url : Option String → List Element → Option String
link_url fallback [] = fallback
link_url fallback (link ∷ links) =
    let next = link_url fallback links in
    if is_named ("link" ∷ []) link
    then elim (clean_optional_text (get "href" (attributes link))) [
      | none ↦ next
      | some href ↦
          if is_alternate (clean_optional_text (get "rel" (attributes link)))
          then some href
          else link_url (coalesce fallback (some href)) links
    ]
    else next

-- `_extract_entry_url`
unfoldable pub extract_entry_url : Element → Option String
unfolding link_url
extract_entry_url entry =
    coalesce (first_text ("link" ∷ []) entry) (link_url none (elements (children entry)))

-- `_extract_entry_summary`
unfoldable pub extract_entry_summary : Outside → Element → Option String
unfolding strip_html_text
extract_entry_summary o entry = coalesce (first_text ("summary" ∷ "description" ∷ []) entry) (
    coalesce (strip_html_text o (first_text ("encoded" ∷ []) entry))
      (strip_html_text o (first_text ("content" ∷ []) entry)))

-- What the author's own node says.
unfoldable pub author_of_node : Outside → Option Element → Option String
unfolding strip_html_text
author_of_node o none = none
author_of_node o (some node) =
    coalesce (strip_html_text o (first_text ("name" ∷ []) node))
      (strip_html_text o (some (inner_text node)))

-- `_extract_entry_author`
unfoldable pub extract_entry_author : Outside → Element → Option String
unfolding strip_html_text author_of_node
extract_entry_author o entry = coalesce (author_of_node o (first_child ("author" ∷ []) entry)) (
    coalesce (strip_html_text o (first_text ("creator" ∷ []) entry))
      (strip_html_text o (first_text ("author" ∷ []) entry)))

-- The dict of an entry that has a title and a URL.
unfoldable pub payload_with : Outside → Element → String → String → Outcome Entry
unfolding extract_entry_summary extract_entry_author extract_entry_image_url
payload_with o entry title url = do
  published_at ← parse_first_datetime o entry ("pubdate" ∷ "published" ∷ "updated" ∷ "date" ∷ [])
  image_url ← extract_entry_image_url o entry
  ok record {
    title = some title;
    url = some url;
    summary = extract_entry_summary o entry;
    author = extract_entry_author o entry;
    published_at = published_at;
    image_url = image_url;
  }

-- `_extract_entry_payload`
unfoldable pub extract_entry_payload : Outside → Element → Outcome (Option Entry)
unfolding payload_with extract_entry_url
extract_entry_payload o entry = elim (first_text ("title" ∷ []) entry) [
  | none ↦ ok none
  | some title ↦ elim (extract_entry_url entry) [
    | none ↦ ok none
    | some url ↦ payload_with o entry title url >>= λ payload. ok (some payload)
  ]
]

abbrev pub keep : Option Entry → List Entry → List Entry
keep none payloads = payloads
keep (some payload) payloads = payload ∷ payloads

unfoldable pub entry_payloads : Outside → List Element → Outcome (List Entry)
unfolding extract_entry_payload
entry_payloads o [] = ok []
entry_payloads o (node ∷ nodes) =
    let rest = entry_payloads o nodes in
    extract_entry_payload o node >>= λ payload. rest >>= λ payloads. ok (keep payload payloads)

-- What becomes of a feed that is XML.
unfoldable pub parse_root : Outside → Element → Outcome (List Entry × Option DateTime)
unfolding extract_last_modified entry_payloads extract_entry_nodes
parse_root o root = do
  last_modified ← extract_last_modified o root
  payloads ← entry_payloads o (extract_entry_nodes root)
  ok (payloads, last_modified)

unfoldable pub parse_rss_feed_entries : Outside → String → Outcome (List Entry × Option DateTime)
unfolding parse_root
parse_rss_feed_entries o content =
    if is_empty (strip content) then err Error.value_error else elim (o.fromstring content) [
      | none ↦ err Error.value_error
      | some root ↦ parse_root o root
    ]
