-- ===== src/Tests/Parsing.antt =====
-- Runs of the worker's parser.
use Prim.Native.String.{◌++◌ as ◌<+>◌}
use manifeed.Worker.Parse.Chosen.{IsImage, extract_entry_image_url-IsImage}
use manifeed.Worker.Parse.Payloads.{IsParsed, parse_rss_feed_entries-IsParsed}
use manifeed.Worker.Parse.Markup.{is_tagless, strip_html_text-tagless}
use manifeed.Common.{
  replace_z, zero, suc, map, ℕ, ◌+◌, ◌≡◌, refl, true, ◌&&◌, ◌||◌, leb, none, some, [], ◌∷◌, String,
  aware, east, year_2026, seconds, str_eq, contains, if◌then◌else◌, ok, err, Error, strip,
  clean_text, clean_optional_text, cut, lower, lstrip, rstrip, text_drop, text_take, starts_with,
  split,
}
use manifeed.Worker.Parse.{
  Outside, Element, element, no_child, child, east_of, Attributes, elements, get, behind_last,
  local_name, first_named, first_child, first_text_in, first_text, to_utc, parse_datetime,
  parse_first_datetime, iter, inner_text,
}
use manifeed.Worker.Parse.Html.{
  strip_tags, strip_html_text, image_tags, extract_html_attribute, tag_length, single_spaced,
  normalize_spaces, attach_punctuation, image_tag_at, bare_value, quoted_value, attribute_value,
  attribute_at, search_attribute,
}
use manifeed.Worker.Parse.Sizes.{
  parse_dimension, text, first_digits, max_from, max_dimension, query_dimensions,
  extract_image_dimensions_from_query, parse_srcset_width,
}
use manifeed.Worker.Parse.Images.{
  extract_entry_image_url, place, widen_at, record_candidate, append_image, append_srcset_candidate,
  append_srcset, append_image_candidate, append_node, append_nodes, append_image_tags,
  append_html_image_candidates, append_html_fields, collect_images, smaller, best_from,
  choose_image,
}
use manifeed.Worker.Parse.Entries.{
  parse_rss_feed_entries, extract_entry_nodes, extract_last_modified, link_url, extract_entry_url,
  extract_entry_summary, author_of_node, extract_entry_author, payload_with, extract_entry_payload,
  entry_payloads, parse_root,
}

abbrev leaf : String → Attributes → String → Element
leaf name attrib inner = element name attrib inner no_child

abbrev item : Element
item = element "item" [] "" (
    child (leaf "title" [] "  News ") "" (
      child (leaf "{http://www.w3.org/2005/Atom}link" (("href", "https://a.example/1") ∷ []) "") ""
        (child (leaf "pubDate" [] "noon") "" (
          child
            (leaf "media:thumbnail" (("url", "https://a.example/s.jpg") ∷ ("width", "90px") ∷ [])
              "")
            ""
            (child
              (leaf "description" []
                "<p>Read <IMG alt='x' srcset=\"https://a.example/m.jpg 320w, https://a.example/l.jpg?w=640\"></p>")
              "" (child (leaf "creator" [] "A. <b>Writer</b> , <>") "" no_child))))))

abbrev nameless : Element
nameless = element "item" [] "" (child (leaf "link" [] "https://a.example/2") "" no_child)

abbrev feed : Element
feed =
    element "rss" [] ""
      (child (element "channel" [] "" (child item "" (child nameless "" no_child))) "" no_child)

abbrev pub outside : Outside
outside = record {
  fromstring = λ s. if str_eq s "feed" then some feed else none;
  unescape = λ s. s;
  parsedate_to_datetime = λ s.
      if str_eq s "noon"
      then ok (east_of (year_2026 + seconds 43200) (seconds 3600))
      else err Error.value_error;
  fromisoformat = λ s. err Error.value_error;
  parse_query = λ s. ok (if contains s "?w=640" then ("W", "640") ∷ [] else []);
  is_word = λ c. leb 97 c && leb c 122 || leb 65 c && leb c 90;
}

feed_parsed :
    parse_rss_feed_entries outside "feed"
    ≡ ok (
      record {
        title = some "News";
        url = some "https://a.example/1";
        summary =
            some
              "<p>Read <IMG alt='x' srcset=\"https://a.example/m.jpg 320w, https://a.example/l.jpg?w=640\"></p>";
        author = some "A. Writer, <>";
        published_at = some (aware (year_2026 + seconds 39600) (east 0));
        image_url = some "https://a.example/l.jpg?w=640";
      }
          ∷ [],
      none,
    )
unfolding elements get behind_last local_name first_named first_child first_text_in first_text
    to_utc replace_z parse_datetime parse_first_datetime iter inner_text tag_length strip_tags
    single_spaced normalize_spaces attach_punctuation strip_html_text image_tag_at image_tags
    bare_value quoted_value attribute_value attribute_at search_attribute extract_html_attribute
    first_digits parse_dimension max_from max_dimension query_dimensions
    extract_image_dimensions_from_query place widen_at record_candidate append_image
    parse_srcset_width append_srcset_candidate append_srcset append_image_candidate append_node
    append_nodes append_image_tags append_html_image_candidates append_html_fields collect_images
    smaller best_from choose_image extract_entry_image_url extract_entry_nodes extract_last_modified
    link_url extract_entry_url extract_entry_summary author_of_node extract_entry_author
    payload_with extract_entry_payload entry_payloads parse_root parse_rss_feed_entries strip
    clean_text clean_optional_text cut lower lstrip rstrip text_drop text_take starts_with split
    contains
feed_parsed = refl

abbrev nines : ℕ → String
nines zero = ""
nines (suc n) = "9" <+> nines n

long_width : parse_dimension (text (nines 4301)) ≡ err Error.value_error
unfolding parse_dimension first_digits
long_width = refl

last_width : parse_dimension (text "x12px3") ≡ ok (some 12)
unfolding parse_dimension first_digits
last_width = refl

-- The date of one entry, which is before the year 1 in UTC, makes the whole feed fail.
early_date :
    parse_rss_feed_entries
      (record outside { parsedate_to_datetime = λ s. ok (east_of (seconds 1800) (seconds 3600)) })
      "feed"
    ≡ err Error.overflow_error
unfolding elements get behind_last local_name first_named first_child first_text_in first_text
    to_utc replace_z parse_datetime parse_first_datetime iter inner_text tag_length strip_tags
    single_spaced normalize_spaces attach_punctuation strip_html_text image_tag_at image_tags
    bare_value quoted_value attribute_value attribute_at search_attribute extract_html_attribute
    first_digits parse_dimension max_from max_dimension query_dimensions
    extract_image_dimensions_from_query place widen_at record_candidate append_image
    parse_srcset_width append_srcset_candidate append_srcset append_image_candidate append_node
    append_nodes append_image_tags append_html_image_candidates append_html_fields collect_images
    smaller best_from choose_image extract_entry_image_url extract_entry_nodes extract_last_modified
    link_url extract_entry_url extract_entry_summary author_of_node extract_entry_author
    payload_with extract_entry_payload entry_payloads parse_root parse_rss_feed_entries strip
    clean_text clean_optional_text cut lower lstrip rstrip text_drop text_take starts_with split
    contains
early_date = refl

-- An image whose place in the list is behind a wider one, and one that is there twice.
wider :
    choose_image (
      record { image_url = "a"; width = none; height = none }
      ∷ record { image_url = "b"; width = some 90; height = none }
      ∷ record { image_url = "c"; width = some 90; height = some 10 }
      ∷ [])
    ≡ some "c"
unfolding choose_image best_from smaller
wider = refl

tags : image_tags outside 0 "<imgs><img src=a><IMG\nsrc = 'b'" ≡ "<img src=a>" ∷ []
unfolding image_tags image_tag_at starts_with text_drop cut lower
tags = refl

attributes_read :
    map
      (extract_html_attribute outside "<img data-src='x' SRC = b width='' height=\"9\">")
      ("src" ∷ "width" ∷ "height" ∷ "alt" ∷ [])
    ≡ some "x" ∷ none ∷ some "9" ∷ none ∷ []
unfolding extract_html_attribute search_attribute attribute_at attribute_value quoted_value
    bare_value starts_with text_drop cut lower lstrip rstrip strip clean_text
attributes_read = refl

extract_entry_image_url-IsImage_example :
    IsImage (collect_images outside item) (extract_entry_image_url outside item)
extract_entry_image_url-IsImage_example = extract_entry_image_url-IsImage outside item

parse_rss_feed_entries-IsParsed_example :
    IsParsed outside "feed" (parse_rss_feed_entries outside "feed")
parse_rss_feed_entries-IsParsed_example = parse_rss_feed_entries-IsParsed outside "feed"

stripped : strip_html_text outside (some " A.<br/> <b>Writer</b> , <>") ≡ some "A. Writer, <>"
unfolding strip_html_text strip_tags tag_length normalize_spaces single_spaced attach_punctuation
    strip lstrip rstrip clean_text cut
stripped = refl

strip_html_text-tagless_example : is_tagless "A. Writer, <>" ≡ true
strip_html_text-tagless_example =
    strip_html_text-tagless outside (some " A.<br/> <b>Writer</b> , <>") stripped
