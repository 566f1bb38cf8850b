-- ===== src/Worker/Parse/Payloads.antt =====
-- The entries that rss_parse_domain.py makes of a feed: which nodes have one, and what its texts and
-- its date look like.
use manifeed.Common.{
  ◌≡◌, refl, sym, Bool, true, false, ◌&&◌, Bool-cases, Option-cases, Option, none, some, inl, inr,
  ◌⊎◌, List, [], ◌∷◌, String, DateTime, All, filter, map, is_some, is_empty, strip, str_eq,
  if-cases, Outcome, ok, err, Error, ◌>>=◌, WhenOk, >>=-WhenOk,
}
use manifeed.Worker.Normalize.{Entry}
use manifeed.Worker.Parse.{
  Outside, Element, tag, local_name, first_text, first_child, parse_first_datetime,
}
use manifeed.Worker.Parse.Images.{extract_entry_image_url}
use manifeed.Worker.Parse.Entries.{
  extract_entry_nodes, extract_last_modified, extract_entry_url, payload_with,
  extract_entry_payload, entry_payloads, keep, parse_root, parse_rss_feed_entries,
  last_modified_of_root,
}
use manifeed.Worker.Parse.Clean.{
  IsClean, IsInUtc, first_text-IsClean, url-IsClean, image-IsClean, author-IsClean, summary-IsClean,
  first_datetime-IsInUtc,
}

pub record IsPayload (e : Entry) : Type 0 where
  pub title : is_some e.title ≡ true
  pub url : is_some e.url ≡ true
  pub title_clean : IsClean e.title
  pub url_clean : IsClean e.url
  pub summary_clean : IsClean e.summary
  pub author_clean : IsClean e.author
  pub image_clean : IsClean e.image_url
  pub published_in_utc : IsInUtc e.published_at

-- The nodes of the tree that have a title and a URL.
abbrev pub is_complete : Element → Bool
is_complete node = is_some (first_text ("title" ∷ []) node) && is_some (extract_entry_url node)

-- What becomes of one node.
abbrev pub IsEntryOf : Element → Option Entry → Type 0
IsEntryOf node none = is_complete node ≡ false
IsEntryOf node (some e) =
    (is_complete node ≡ true)
    × (e.title ≡ first_text ("title" ∷ []) node)
    × (e.url ≡ extract_entry_url node)
    × IsPayload e

-- What becomes of a list of nodes: the complete ones have an entry, in their order.
abbrev pub AreEntriesOf : List Element → List Entry → Type 0
AreEntriesOf nodes payloads =
    (map (λ e. e.title) payloads ≡ map (first_text ("title" ∷ [])) (filter is_complete nodes))
    × (map (λ e. e.url) payloads ≡ map extract_entry_url (filter is_complete nodes))
    × All IsPayload payloads

module _ (o : Outside) where
  payload-IsEntryOf :
      (node : Element) {title url : String}
      → first_text ("title" ∷ []) node ≡ some title
      → extract_entry_url node ≡ some url
      → WhenOk (λ e. IsEntryOf node (some e)) (payload_with o node title url)
  unfolding payload_with
  payload-IsEntryOf node {title} {url} t u =
      >>=-WhenOk IsInUtc _ (parse_first_datetime o node _) _ (first_datetime-IsInUtc o node _)
        (λ published_at p.
          >>=-WhenOk IsClean _ (extract_entry_image_url o node) _ (image-IsClean o node)
            (λ image_url i. (
              rw (t, u) refl,
              sym t,
              sym u,
              record {
                title = refl;
                url = refl;
                title_clean = rw t at (first_text-IsClean ("title" ∷ []) node);
                url_clean = rw u at (url-IsClean node);
                summary_clean = summary-IsClean o node;
                author_clean = author-IsClean o node;
                image_clean = i;
                published_in_utc = p;
              },
            )))

  entry-IsEntryOf : (node : Element) → WhenOk (IsEntryOf node) (extract_entry_payload o node)
  unfolding extract_entry_payload
  entry-IsEntryOf node = elim (Option-cases (first_text ("title" ∷ []) node)) [
    | inl e ↦ rw (e, extract_entry_payload) (rw e refl)
    | inr (title, t) ↦ elim (Option-cases (extract_entry_url node)) [
      | inl e ↦ rw (t, e, extract_entry_payload) (rw (t, e) refl)
      | inr (url, u) ↦
          rw (t, u, extract_entry_payload)
            (>>=-WhenOk (λ e. IsEntryOf node (some e)) (IsEntryOf node)
              (payload_with o node title url) _ (payload-IsEntryOf node t u) (λ e h. h))
    ]
  ]

  keep-AreEntriesOf :
      (node : Element) (nodes : List Element) (payload : Option Entry) (payloads : List Entry)
      → IsEntryOf node payload
      → AreEntriesOf nodes payloads
      → AreEntriesOf (node ∷ nodes) (keep payload payloads)
  keep-AreEntriesOf node nodes none payloads h k = rw h k
  keep-AreEntriesOf node nodes (some e) payloads (complete, t, u, h) (ts, us, k) =
      rw complete (rw (t, ts) refl, rw (u, us) refl, (h, k))

  entries-AreEntriesOf :
      (nodes : List Element) → WhenOk (AreEntriesOf nodes) (entry_payloads o nodes)
  unfolding entry_payloads
  entries-AreEntriesOf [] = (refl, refl, tt)
  entries-AreEntriesOf (node ∷ nodes) =
      >>=-WhenOk (IsEntryOf node) (AreEntriesOf (node ∷ nodes)) (extract_entry_payload o node) _
        (entry-IsEntryOf node)
        (λ payload h.
          >>=-WhenOk (AreEntriesOf nodes) (AreEntriesOf (node ∷ nodes)) (entry_payloads o nodes) _
            (entries-AreEntriesOf nodes)
            (λ payloads k. keep-AreEntriesOf node nodes payload payloads h k))

  last_modified-IsInUtc : (root : Element) → WhenOk IsInUtc (extract_last_modified o root)
  unfolding extract_last_modified
  last_modified-IsInUtc root =
      if-cases (WhenOk IsInUtc) (str_eq (local_name (tag root)) "rss") _ _
        (λ _. of_channel (first_child ("channel" ∷ []) root)) (λ _. of_root)
    where
      of_root : WhenOk IsInUtc (last_modified_of_root o root)
      of_root = first_datetime-IsInUtc o root ("updated" ∷ "lastbuilddate" ∷ "pubdate" ∷ [])

      or_root :
          (parsed : Option DateTime)
          → IsInUtc parsed
          → WhenOk IsInUtc
              (elim parsed [ some t ↦ ok (some t) | none ↦ last_modified_of_root o root ])
      or_root none _ = of_root
      or_root (some t) h = h

      of_channel :
          (channel : Option Element)
          → WhenOk IsInUtc (elim channel [
            | none ↦ last_modified_of_root o root
            | some c ↦
                parse_first_datetime o c ("lastbuilddate" ∷ "pubdate" ∷ "updated" ∷ []) >>= λ d.
                elim d [ some t ↦ ok (some t) | none ↦ last_modified_of_root o root ]
          ])
      of_channel none = of_root
      of_channel (some c) = >>=-WhenOk IsInUtc IsInUtc _ _ (first_datetime-IsInUtc o c _) or_root

  root-AreEntriesOf :
      (root : Element)
      → WhenOk (λ p. AreEntriesOf (extract_entry_nodes root) p.0 × IsInUtc p.1) (parse_root o root)
  unfolding parse_root
  root-AreEntriesOf root =
      >>=-WhenOk IsInUtc _ (extract_last_modified o root) _ (last_modified-IsInUtc root) (λ d h.
        >>=-WhenOk (AreEntriesOf (extract_entry_nodes root)) _
          (entry_payloads o (extract_entry_nodes root)) _
          (entries-AreEntriesOf (extract_entry_nodes root)) (λ payloads k. (k, h)))

-- What parsing a text comes to: a text that is empty or no XML is refused; otherwise the result, if
-- there is one, has the complete nodes' entries.
abbrev pub IsParsed : Outside → String → Outcome (List Entry × Option DateTime) → Type 0
IsParsed o content parsed =
    (((is_empty (strip content) ≡ true) ⊎ (o.fromstring content ≡ none))
      × (parsed ≡ err Error.value_error))
    ⊎ ((root : Element) × (o.fromstring content ≡ some root)
        × (is_empty (strip content) ≡ false)
        × WhenOk (λ p. AreEntriesOf (extract_entry_nodes root) p.0 × IsInUtc p.1) parsed)

-- Parsing refuses a text that is empty or no XML. Otherwise what it returns has an entry for each
-- node of an entry that has a title and a URL, in their order and with these two, and for no other
-- node; the texts of an entry are stripped and not empty where they are there, its image too, and its
-- date and that of the feed are in UTC.
pub parse_rss_feed_entries-IsParsed :
    (o : Outside) (content : String) → IsParsed o content (parse_rss_feed_entries o content)
unfolding parse_rss_feed_entries
parse_rss_feed_entries-IsParsed o content = elim (Bool-cases (is_empty (strip content))) [
  | inl e ↦ inl (inl e, rw (e, parse_rss_feed_entries) refl)
  | inr e ↦ elim (Option-cases (o.fromstring content)) [
    | inl f ↦ inl (inr f, rw (e, f, parse_rss_feed_entries) refl)
    | inr (root, f) ↦ inr (root, f, e, rw (e, f, parse_rss_feed_entries) (root-AreEntriesOf o root))
  ]
]
