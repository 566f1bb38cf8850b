-- ===== src/Worker/Parse/Indexed.antt =====
-- The dict and the list in which rss_parse_domain.py collects the candidates for an image.
use manifeed.Common.{
  ◌≡◌, refl, ℕ, Option-cases, Option, none, some, inl, inr, List, [], ◌∷◌, String, if-cases, str_eq,
  clean_text, clean_text_idem, clean_optional_text, split, map_option, text_mem, ◌>>=◌, Outcome, ok,
  err, WhenOk, >>=-WhenOk, any-WhenOk,
}
use manifeed.Worker.Parse.{Outside, Element, children, iter_children, tag, local_name, first_text}
use manifeed.Worker.Parse.Html.{image_tags, extract_html_attribute}
use manifeed.Worker.Parse.Sizes.{
  attribute_dimension, Dimension, number_dimension, parse_dimension, parse_srcset_width,
  max_dimension, extract_image_dimensions_from_query,
}
use manifeed.Worker.Parse.Images.{
  Found, attribute_of, url_or_href, dimension_of, split_once, place, record_candidate, append_image,
  append_srcset, append_srcset_candidate, append_image_candidate, append_node, append_nodes,
  append_image_tags, append_html_image_candidates, append_html_fields, collect_images,
  nothing_found,
}
use manifeed.Worker.Parse.Places.{IsIndexed, record-IsIndexed}

nothing-IsIndexed : IsIndexed nothing_found
unfolding place
nothing-IsIndexed = record { places = λ u. refl; unique = tt; cleaned = tt }

module _ (o : Outside) where
  append_image-IsIndexed :
      (url : Option String) (w h : Dimension) (found : Found)
      → IsIndexed found
      → WhenOk IsIndexed (append_image o url w h found)
  unfolding append_image
  append_image-IsIndexed none w h found i = i
  append_image-IsIndexed (some raw) w h found i =
      elim (Option-cases (clean_text (o.unescape raw))) [
        | inl e ↦ rw (e, append_image) i
        | inr (url, e) ↦
            rw (e, append_image)
              (after (extract_image_dimensions_from_query o url)
                (clean_text_idem (o.unescape raw) e))
      ]
    where
      sized :
          {url : String} (q : Option ℕ × Option ℕ) (a b : Outcome (Option ℕ))
          → clean_text url ≡ some url
          → WhenOk IsIndexed (
              a >>= λ ow. b >>= λ oh. ok (
                record_candidate url
                  (max_dimension (ow ∷ q.0 ∷ []))
                  (max_dimension (oh ∷ q.1 ∷ []))
                  found))
      sized q (err x) b clean = tt
      sized q (ok ow) (err x) clean = tt
      sized {url} q (ok ow) (ok oh) clean = record-IsIndexed url _ _ found clean i

      after :
          {url : String} (q : Outcome (Option ℕ × Option ℕ))
          → clean_text url ≡ some url
          → WhenOk IsIndexed (
              q >>= λ d. parse_dimension w >>= λ ow. parse_dimension h >>= λ oh. ok (
                record_candidate url
                  (max_dimension (ow ∷ d.0 ∷ []))
                  (max_dimension (oh ∷ d.1 ∷ []))
                  found))
      after (err x) clean = tt
      after (ok q) clean = sized q (parse_dimension w) (parse_dimension h) clean

  srcset_candidate-IsIndexed :
      (h : Dimension) (raw : String) (found : Found)
      → IsIndexed found
      → WhenOk IsIndexed (append_srcset_candidate o h raw found)
  unfolding append_srcset_candidate
  srcset_candidate-IsIndexed h raw found i = elim (Option-cases (clean_text raw)) [
    | inl e ↦ rw (e, append_srcset_candidate) i
    | inr (cleaned, e) ↦
        rw (e, append_srcset_candidate)
          (>>=-WhenOk (λ _. Unit {0}) IsIndexed (parse_srcset_width (split_once cleaned).1) _
            (any-WhenOk _)
            (λ w _.
              append_image-IsIndexed (some (split_once cleaned).0) (number_dimension w) h found i))
  ]

  srcset-IsIndexed :
      (h : Dimension) (raws : List String) (found : Found)
      → IsIndexed found
      → WhenOk IsIndexed (append_srcset o h raws found)
  unfolding append_srcset
  srcset-IsIndexed h [] found i = i
  srcset-IsIndexed h (raw ∷ rest) found i =
      >>=-WhenOk IsIndexed IsIndexed (append_srcset_candidate o h raw found) _
        (srcset_candidate-IsIndexed h raw found i) (srcset-IsIndexed h rest)

  candidate-IsIndexed :
      (url : Option String) (w h : Dimension) (srcset : Option String) (found : Found)
      → IsIndexed found
      → WhenOk IsIndexed (append_image_candidate o url w h srcset found)
  unfolding append_image_candidate
  candidate-IsIndexed url w h srcset found i =
      >>=-WhenOk IsIndexed IsIndexed (append_image o url w h found) _
        (append_image-IsIndexed url w h found i) with_srcset
    where
      with_srcset :
          (next : Found)
          → IsIndexed next
          → WhenOk IsIndexed (elim (clean_optional_text (map_option o.unescape srcset)) [
            | none ↦ ok next
            | some cleaned ↦ append_srcset o h (split 44 cleaned) next
          ])
      with_srcset next k =
          elim (clean_optional_text (map_option o.unescape srcset))
            as (λ s. WhenOk IsIndexed (elim s [
              | none ↦ ok next
              | some cleaned ↦ append_srcset o h (split 44 cleaned) next
            ])) [ none ↦ k | some cleaned ↦ srcset-IsIndexed h (split 44 cleaned) next k ]

  node-IsIndexed :
      (node : Element) (found : Found)
      → IsIndexed found
      → WhenOk IsIndexed (append_node o node found)
  unfolding append_node
  node-IsIndexed node found i =
      if-cases (WhenOk IsIndexed) (str_eq (local_name (tag node)) "img") _ _
        (λ _. of_image (attribute_of "src" node))
        (λ _.
          if-cases (WhenOk IsIndexed)
            (text_mem (local_name (tag node))
              ("thumbnail" ∷ "content" ∷ "enclosure" ∷ "image" ∷ []))
            _ _ (λ _. of_image (url_or_href node)) (λ _. i))
    where
      of_image :
          (url : Option String)
          → WhenOk IsIndexed (
              append_image_candidate o url
                (dimension_of "width" node)
                (dimension_of "height" node)
                (attribute_of "srcset" node)
                found)
      of_image url = candidate-IsIndexed url _ _ _ found i

  nodes-IsIndexed :
      (nodes : List Element) (found : Found)
      → IsIndexed found
      → WhenOk IsIndexed (append_nodes o nodes found)
  unfolding append_nodes
  nodes-IsIndexed [] found i = i
  nodes-IsIndexed (node ∷ nodes) found i =
      >>=-WhenOk IsIndexed IsIndexed (append_node o node found) _ (node-IsIndexed node found i)
        (nodes-IsIndexed nodes)

  tags-IsIndexed :
      (tags : List String) (found : Found)
      → IsIndexed found
      → WhenOk IsIndexed (append_image_tags o tags found)
  unfolding append_image_tags
  tags-IsIndexed [] found i = i
  tags-IsIndexed (image ∷ tags) found i =
      >>=-WhenOk IsIndexed IsIndexed _ (append_image_tags o tags)
        (candidate-IsIndexed (extract_html_attribute o image "src")
          (attribute_dimension (extract_html_attribute o image "width"))
          (attribute_dimension (extract_html_attribute o image "height"))
          (extract_html_attribute o image "srcset") found i)
        (tags-IsIndexed tags)

  html-IsIndexed :
      (value : Option String) (found : Found)
      → IsIndexed found
      → WhenOk IsIndexed (append_html_image_candidates o value found)
  unfolding append_html_image_candidates
  html-IsIndexed value found i = elim (Option-cases (clean_optional_text value)) [
    | inl e ↦ rw (e, append_html_image_candidates) i
    | inr (html, e) ↦
        rw (e, append_html_image_candidates) (tags-IsIndexed (image_tags o 0 html) found i)
  ]

  fields-IsIndexed :
      (entry : Element) (fields : List String) (found : Found)
      → IsIndexed found
      → WhenOk IsIndexed (append_html_fields o entry fields found)
  unfolding append_html_fields
  fields-IsIndexed entry [] found i = i
  fields-IsIndexed entry (field ∷ fields) found i =
      >>=-WhenOk IsIndexed IsIndexed _ (append_html_fields o entry fields)
        (html-IsIndexed (first_text (field ∷ []) entry) found i) (fields-IsIndexed entry fields)

  pub collect_images-IsIndexed : (entry : Element) → WhenOk IsIndexed (collect_images o entry)
  unfolding collect_images
  collect_images-IsIndexed entry =
      >>=-WhenOk IsIndexed IsIndexed (append_nodes o (iter_children (children entry)) nothing_found)
        _ (nodes-IsIndexed (iter_children (children entry)) nothing_found nothing-IsIndexed)
        (fields-IsIndexed entry ("encoded" ∷ "content" ∷ "description" ∷ "summary" ∷ []))
