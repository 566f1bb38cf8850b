-- ===== src/DbManager/Persist/Sources.antt =====
-- The sources of an ingested feed, behind their upserts.
use manifeed.Common.{
  ℕ, ◌+◌, ◌≡◌, refl, sym, ap, Bool, true, Option, none, some, List, [], ◌∷◌, String, Instant, arith,
  any, find, update, All, ◌∙◌, ok, >>=-eq-ok, inl, inr, Bool-cases, Option-cases, ==_refl, ==_iff,
  eq_iff, eq_refl,
}
use manifeed.Db.{Database, Source, is_source, is_link}
use manifeed.DbManager.Payload.{WorkerSource}
use manifeed.DbManager.Persist.{
  merge_source, new_source, normalize_published_at, upsert_source, link_source, upsert_sources,
}

-- The id of the source that a query by URL and date has found.
abbrev pub id_of : Option Source → Option ℕ
id_of none = none
id_of (some row) = some row.id

abbrev pub source_id : String → Instant → Database → Option ℕ
source_id url t db = id_of (find (is_source url t) db.sources)

upsert_source-new :
    (s : WorkerSource) (id : ℕ) (db db' : Database)
    → find (is_source s.url (normalize_published_at s.published_at)) db.sources ≡ none
    → upsert_source s db ≡ ok (id, db')
    → (db'.sources ≡ new_source id s ∷ db.sources)
      × (id ≡ db.next_source_id)
      × (db'.next_source_id ≡ db.next_source_id + 1)
      × (db'.source_feeds ≡ db.source_feeds)
unfolding upsert_source
upsert_source-new s id db db' e h = ground arith

upsert_source-old :
    (s : WorkerSource) (id : ℕ) (db db' : Database) (row : Source)
    → find (is_source s.url (normalize_published_at s.published_at)) db.sources ≡ some row
    → upsert_source s db ≡ ok (id, db')
    → (db'.sources
        ≡ update
            (is_source s.url (normalize_published_at s.published_at))
            (merge_source s)
            db.sources)
      × (id ≡ row.id)
      × (db'.next_source_id ≡ db.next_source_id + 1)
      × (db'.source_feeds ≡ db.source_feeds)
unfolding upsert_source
upsert_source-old s id db db' row e h = ground arith

-- Merging new contents into stored rows changes no key and no id.
id-merge :
    (u : String) (t : Instant) (q : Source → Bool) (s : WorkerSource) (xs : List Source)
    → id_of (find (is_source u t) (update q (merge_source s) xs)) ≡ id_of (find (is_source u t) xs)
unfolding merge_source
id-merge u t q s [] = refl
id-merge u t q s (x ∷ xs) = ground (arith, id-merge u t q s xs)

same_key-new_source :
    (s : WorkerSource) (id : ℕ) (u : String) (t : Instant)
    → is_source u t (new_source id s) ≡ true
    → (u ≡ s.url) × (t ≡ normalize_published_at s.published_at)
unfolding new_source
same_key-new_source s id u t m =
    ground (arith, eq_iff s.url u, ==_iff (normalize_published_at s.published_at) t)

same_key-id :
    (s : WorkerSource) (id : ℕ) (db : Database) (u : String) (t : Instant)
    → is_source u t (new_source id s) ≡ true
    → source_id u t db ≡ source_id s.url (normalize_published_at s.published_at) db
same_key-id s id db u t m =
    let (p, q) = same_key-new_source s id u t m in λ i. source_id (p i) (q i) db

module _ (s : WorkerSource) (id : ℕ) (db db' : Database)
    (e : upsert_source s db ≡ ok (id, db')) where
  abbrev at : Instant
  at = normalize_published_at s.published_at

  -- The source is stored under the id that the statement returns.
  source_id-upsert : source_id s.url at db' ≡ some id
  source_id-upsert = elim (Option-cases (find (is_source s.url at) db.sources)) [
    | inl new ↦
        rw (upsert_source-new s id db db' new e).0
          (unfold new_source in ground (arith, eq_refl s.url, ==_refl at))
    | inr (row, old) ↦
        let (sources, same, _, _) = upsert_source-old s id db db' row old e in
        rw sources (id-merge s.url at _ s db.sources ∙ ap id_of old ∙ ap some (sym same))
  ]

  -- A source that is stored keeps its id.
  source_id-keeps :
      (u : String) (t : Instant) {i : ℕ} → source_id u t db ≡ some i → source_id u t db' ≡ some i
  source_id-keeps u t h = elim (Option-cases (find (is_source s.url at) db.sources)) [
    | inl new ↦
        rw (upsert_source-new s id db db' new e).0
          (elim (Bool-cases (is_source u t (new_source id s))) [
            | inl m ↦ cc (sym h ∙ same_key-id s id db u t m ∙ ap id_of new)
            | inr m ↦ rw m h
          ])
    | inr (row, old) ↦
        rw (upsert_source-old s id db db' row old e).0 (id-merge u t _ s db.sources ∙ h)
  ]

  links-upsert : db'.source_feeds ≡ db.source_feeds
  links-upsert = elim (Option-cases (find (is_source s.url at) db.sources)) [
    | inl new ↦ (upsert_source-new s id db db' new e).3
    | inr (row, old) ↦ (upsert_source-old s id db db' row old e).3
  ]

link_source-links :
    (i f : ℕ) (t : Instant) (db db' : Database)
    → link_source i f t db ≡ ok db'
    → (db'.sources ≡ db.sources) × (any (is_link i f t) db'.source_feeds ≡ true)
unfolding link_source
link_source-links i f t db db' h = ground (arith, ==_refl i, ==_refl f, ==_refl t)

link_source-keeps :
    (i f : ℕ) (t : Instant) (db db' : Database) (j g : ℕ) (u : Instant)
    → link_source i f t db ≡ ok db'
    → any (is_link j g u) db.source_feeds ≡ true
    → any (is_link j g u) db'.source_feeds ≡ true
unfolding link_source
link_source-keeps i f t db db' j g u h k = ground arith

-- A source of a payload is stored, and linked to the feed.
pub record IsStored (f : ℕ) (db : Database) (s : WorkerSource) : Type 0 where
  pub id : ℕ
  pub stored : source_id s.url (normalize_published_at s.published_at) db ≡ some id
  pub linked : any (is_link id f (normalize_published_at s.published_at)) db.source_feeds ≡ true

module _ (f : ℕ) (s : WorkerSource) (i : ℕ) (db db₁ db₂ : Database)
    (upserted : upsert_source s db ≡ ok (i, db₁))
    (linked : link_source i f (normalize_published_at s.published_at) db₁ ≡ ok db₂) where
  IsStored-keeps : (s' : WorkerSource) → IsStored f db s' → IsStored f db₂ s'
  IsStored-keeps s' h =
      let t : Instant = normalize_published_at s'.published_at in
      let links = link_source-links i f _ db₁ db₂ linked in
      record {
        id = h.id;
        stored =
            ap (λ x. id_of (find (is_source s'.url t) x)) links.0
            ∙ source_id-keeps s i db db₁ upserted s'.url t h.stored;
        linked =
            link_source-keeps i f _ db₁ db₂ h.id f t linked
              (ap (any (is_link h.id f t)) (links-upsert s i db db₁ upserted) ∙ h.linked);
      }

  IsStored-new : IsStored f db₂ s
  IsStored-new =
      let links = link_source-links i f _ db₁ db₂ linked in
      record {
        id = i;
        stored =
            ap (λ x. id_of (find (is_source s.url (normalize_published_at s.published_at)) x))
              links.0
            ∙ source_id-upsert s i db db₁ upserted;
        linked = links.1;
      }

-- What is stored stays stored while the rest of the payload is worked off.
upsert_sources-keeps :
    (f : ℕ) (ss : List WorkerSource) (db db' : Database) (s : WorkerSource)
    → upsert_sources f ss db ≡ ok db'
    → IsStored f db s
    → IsStored f db' s
unfolding upsert_sources
upsert_sources-keeps f [] db db' s h k = rw (ok-path db db' h) k
  where
    ok-path : (a b : Database) → ok a ≡ ok b → b ≡ a
    ok-path a b e = cc
upsert_sources-keeps f (s' ∷ ss) db db' s h k =
    let ((i, db₁), e, q) = >>=-eq-ok (upsert_source s' db) _ h in
    let (db₂, e₂, q₂) = >>=-eq-ok (link_source i f _ db₁) _ q in
    upsert_sources-keeps f ss db₂ db' s q₂ (IsStored-keeps f s' i db db₁ db₂ e e₂ s k)

-- Behind an accepted payload every one of its sources is found by its URL and date, and is linked
-- to the feed under the id that it is found with.
pub upsert_sources-IsStored :
    (f : ℕ) (ss : List WorkerSource) (db db' : Database)
    → upsert_sources f ss db ≡ ok db'
    → All (IsStored f db') ss
unfolding upsert_sources
upsert_sources-IsStored f [] db db' h = tt
upsert_sources-IsStored f (s ∷ ss) db db' h =
    let ((i, db₁), e, q) = >>=-eq-ok (upsert_source s db) _ h in
    let (db₂, e₂, q₂) = >>=-eq-ok (link_source i f _ db₁) _ q in
    (
      upsert_sources-keeps f ss db₂ db' s q₂ (IsStored-new f s i db db₁ db₂ e e₂),
      upsert_sources-IsStored f ss db₂ db' q₂,
    )
