-- ===== src/Backend/SourceReads/Pages.antt =====
-- The pages of the stored articles.
use manifeed.Common.{
  ◌≤◌, ◌≡◌, refl, sym, ◌∙◌, ap, inl, inr, arith, ◌+◌, ◌==◌, ℕ, true, false, ◌&&◌, Option-cases,
  List, [], ◌∷◌, ◌++◌, map, All, length, is_nil, any, count, filter, take, drop, take-add, drop-add,
  take-length, take-nil, drop-nil, sort_by, count-sort_by, length-sort_by, count-map, length-map,
  ordered-map, All-sort_by, IsOrderedBy, sort_by-IsOrderedBy, if-cases, if◌then◌else◌,
}
use mathlib.Core.Path.{ap₂, subst}
use manifeed.Db.{Database, Source}
use manifeed.Backend.SourceReads.{
  SourceRead, SourceFilter, Group, is_listed, is_group, build_source_ids, comes_first, last_row,
  source_read, source_reads, list_rss_sources_read,
}
use manifeed.Backend.SourceReads.Groups.{
  is_id, latest, IsKey, count-group, any-filter, last_row-some, last_row-holds, groups-IsKey,
}

-- A later date, or the same one and an id that is no lower.
abbrev pub IsNewer : Group → Group → Type 0
IsNewer g h =
    (h.sort_published_at ≤ g.sort_published_at)
    × (h.sort_published_at ≡ g.sort_published_at → h.source_id ≤ g.source_id)

module _ (db : Database) (wanted : SourceFilter) where
  -- The rows that the request wants.
  abbrev pub listed : List Source
  listed = filter (is_listed wanted db) db.sources

  -- The key by which a read is sorted: its latest date in the wanted rows, then its id.
  abbrev pub key_of : SourceRead → Group
  key_of r = record { source_id = r.id; sort_published_at = latest r.id listed }

  -- A group is there among the stored rows.
  known-any : (n : ℕ) → any (is_id n) listed ≡ true → any (is_id n) db.sources ≡ true
  known-any n h = known db.sources (sym (any-filter (is_id n) (is_listed wanted db) db.sources) ∙ h)
    where
      known :
          (ss : List Source)
          → any (λ s. is_id n s && is_listed wanted db s) ss ≡ true
          → any (is_id n) ss ≡ true
      known [] e = e
      known (s ∷ ss) e = ground (arith, known ss)

  keys-reads : (gs : List Group) → All (IsKey listed) gs → map key_of (source_reads db gs) ≡ gs
  unfolding source_reads source_read
  keys-reads [] _ = refl
  keys-reads (g ∷ gs) ((known, date), rest) =
      elim (Option-cases (last_row (is_id g.source_id) db.sources)) [
        | inl e ↦
            absurd
              (ground (arith, e, known-any g.source_id known, last_row-some g.source_id db.sources))
        | inr (s, e) ↦
            let id : s.id ≡ g.source_id = last_row-holds g.source_id db.sources e in
            rw (e, source_reads)
              (λ i.
                (record {
                  source_id = id i;
                  sort_published_at = (ap (λ n. latest n listed) id ∙ sym date) i;
                })
                ∷ keys-reads gs rest i)
      ]

  abbrev paged : ℕ → ℕ → List Group → List Group
  paged limit offset gs = take limit (drop offset (sort_by comes_first gs))

  abbrev page : List SourceRead → ℕ → List SourceRead × ℕ
  page reads n = (reads, n)

  -- The early returns give what the page gives.
  nil-reads :
      (n : ℕ) (gs : List Group)
      → (if is_nil gs then page [] n else page (source_reads db gs) n) ≡ page (source_reads db gs) n
  unfolding source_reads
  nil-reads n [] = refl
  nil-reads n (g ∷ gs) = refl

  returns-page :
      (limit offset : ℕ) (gs : List Group)
      → (if length gs == 0
          then page [] 0
          else if is_nil (paged limit offset gs)
          then page [] (length gs)
          else page (source_reads db (paged limit offset gs)) (length gs))
        ≡ page (source_reads db (paged limit offset gs)) (length gs)
  unfolding source_reads
  returns-page limit offset [] =
      ap (λ xs. page (source_reads db xs) 0)
        (sym (ap (take limit) (drop-nil offset) ∙ take-nil limit))
  returns-page limit offset (g ∷ gs) =
      if-cases (λ x. x ≡ page (source_reads db (paged limit offset (g ∷ gs))) (length (g ∷ gs)))
        (length (g ∷ gs) == 0) _ _ (λ e. absurd (ground (arith, e)))
        (λ _. nil-reads (length (g ∷ gs)) (paged limit offset (g ∷ gs)))

  list-page :
      (limit offset : ℕ)
      → list_rss_sources_read db limit offset wanted ≡ (
        source_reads db (paged limit offset (build_source_ids wanted db)),
        length (build_source_ids wanted db),
      )
  unfolding list_rss_sources_read
  list-page limit offset = returns-page limit offset (build_source_ids wanted db)

  reads-append :
      (gs hs : List Group) → source_reads db (gs ++ hs) ≡ source_reads db gs ++ source_reads db hs
  unfolding source_reads
  reads-append [] hs = refl
  reads-append (g ∷ gs) hs = elim (Option-cases (last_row (is_id g.source_id) db.sources)) [
    | inl e ↦ rw (e, source_reads) (reads-append gs hs)
    | inr (s, e) ↦ rw (e, source_reads) (ap (λ r. source_read db s ∷ r) (reads-append gs hs))
  ]

  -- All that the request wants, and the number of it.
  abbrev pub total : ℕ
  total = (list_rss_sources_read db 0 0 wanted).1

  abbrev pub all_reads : List SourceRead
  all_reads = (list_rss_sources_read db total 0 wanted).0

  pub record IsListing : Type 0 where
    pub once :
        (n : ℕ)
        → count (λ r. r.id == n) all_reads
          ≡ (if any (λ s. s.id == n && is_listed wanted db s) db.sources then 1 else 0)
    pub newest_first : IsOrderedBy (λ r s. IsNewer (key_of r) (key_of s)) all_reads
    pub counted : length all_reads ≡ total
    pub joined :
        (m n offset : ℕ)
        → (list_rss_sources_read db (m + n) offset wanted).0
          ≡ (list_rss_sources_read db m offset wanted).0
            ++ (list_rss_sources_read db n (offset + m) wanted).0
    pub same_total : (limit offset : ℕ) → (list_rss_sources_read db limit offset wanted).1 ≡ total

comes_first-IsNewer : (g h : Group) → comes_first g h ≡ true → IsNewer g h
comes_first-IsNewer g h e = (ground (arith, e), λ same. ground (arith, e, same))

later-IsNewer : (g h : Group) → comes_first g h ≡ false → IsNewer h g
later-IsNewer g h e = (ground (arith, e), λ same. ground (arith, e, same))

IsNewer-trans : (g h k : Group) → IsNewer g h → IsNewer h k → IsNewer g k
IsNewer-trans g h k (e, f) (e', f') = (
  omega arith,
  λ same.
      let first : h.sort_published_at ≡ g.sort_published_at = omega arith in
      let second : k.sort_published_at ≡ h.sort_published_at = omega arith in
      omega (arith, f first, f' second),
)

-- The articles that a request wants: with a limit that is high enough each of their ids is listed
-- once, the latest ones first, as many as the total says; two pages that follow each other are the
-- page of both, and the total is the same on every page.
pub list_rss_sources_read-IsListing : (db : Database) (wanted : SourceFilter) → IsListing db wanted
unfolding build_source_ids
list_rss_sources_read-IsListing db wanted = record {
  once = λ n.
      sym (count-map (key_of db wanted) (is_group n) (all_reads db wanted))
      ∙ ap (count (is_group n)) all_keys
      ∙ count-sort_by comes_first (is_group n) groups
      ∙ count-group n (listed db wanted)
      ∙ ap (λ b. if b then 1 else 0) (any-filter (is_id n) (is_listed wanted db) db.sources);
  newest_first = ordered-map IsNewer (key_of db wanted) (all_reads db wanted) (
      subst (IsOrderedBy IsNewer) (sym all_keys) (
        sort_by-IsOrderedBy comes_first IsNewer comes_first-IsNewer later-IsNewer IsNewer-trans
          groups));
  counted =
      sym (length-map (key_of db wanted) (all_reads db wanted))
      ∙ ap length all_keys
      ∙ length-sort_by comes_first groups
      ∙ sym count_total;
  joined = λ m n offset. joined m n offset;
  same_total = λ limit offset. ap (λ p. p.1) (list-page db wanted limit offset) ∙ sym count_total;
}
  where
    groups : List Group
    groups = build_source_ids wanted db

    count_total : total db wanted ≡ length groups
    count_total = ap (λ p. p.1) (list-page db wanted 0 0)

    all_paged : all_reads db wanted ≡ source_reads db (sort_by comes_first groups)
    all_paged =
        ap (λ p. p.0) (list-page db wanted (total db wanted) 0)
        ∙ ap (λ n. source_reads db (take n (sort_by comes_first groups)))
            (count_total ∙ sym (length-sort_by comes_first groups))
        ∙ ap (source_reads db) (take-length (sort_by comes_first groups))

    all_keys : map (key_of db wanted) (all_reads db wanted) ≡ sort_by comes_first groups
    all_keys =
        ap (map (key_of db wanted)) all_paged
        ∙ keys-reads db wanted (sort_by comes_first groups) (
            All-sort_by comes_first (IsKey (listed db wanted)) groups
              (groups-IsKey (listed db wanted)))

    joined :
        (m n offset : ℕ)
        → (list_rss_sources_read db (m + n) offset wanted).0
          ≡ (list_rss_sources_read db m offset wanted).0
            ++ (list_rss_sources_read db n (offset + m) wanted).0
    joined m n offset =
        let sorted = sort_by comes_first groups in
        ap (λ p. p.0) (list-page db wanted (m + n) offset)
        ∙ ap (source_reads db) (take-add m n (drop offset sorted))
        ∙ reads-append db wanted (take m (drop offset sorted))
            (take n (drop m (drop offset sorted)))
        ∙ sym (
            ap₂ (λ xs ys. xs ++ ys) (ap (λ p. p.0) (list-page db wanted m offset))
              (ap (λ p. p.0) (list-page db wanted n (offset + m))
                ∙ ap (λ xs. source_reads db (take n xs)) (drop-add offset m sorted)))
