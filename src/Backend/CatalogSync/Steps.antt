-- ===== src/Backend/CatalogSync/Steps.antt =====
-- What one turn of the loop over a catalogue's feeds does to the links and to the feeds.
use manifeed.Common.{
  ℕ, ◌<◌, ◌≡◌, refl, ap, ◌∙◌, Bool, true, false, not, ◌&&◌, ◌⊎◌, inl, inr, Option, some, none,
  map_option, List, [], ◌∷◌, String, text_mem, str_eq, eq_iff, arith, any, find, update, All,
  if◌then◌else◌, if-cases, ◌==◌, ==_iff, ==_refl, find-update_map, find-holds,
}
use manifeed.Db.{Feed}
use manifeed.Backend.Sync.{has_url}
use manifeed.Backend.CatalogSync.Keyed.{Keyed, Keyed-update, any-found}
use manifeed.Backend.CatalogSync.Links.{Links, is_linked, IsTracked, IsLinked, expected-update}

-- What no row says that has the id.
All-not_any :
    (k : ℕ) (p : Feed → Bool) (fs : List Feed)
    → any (λ g. g.id == k && p g) fs ≡ false
    → All (λ f. (f.id == k) ≡ true → p f ≡ false) fs
All-not_any k p [] h = tt
All-not_any k p (f ∷ fs) h = (λ same. ground arith, All-not_any k p fs (ground arith))

found-fresh :
    (next : ℕ) (p : Feed → Bool) (fs : List Feed) {f : Feed}
    → Keyed next fs
    → find p fs ≡ some f
    → f.id < next
found-fresh next p [] h e = cc
found-fresh next p (g ∷ fs) {f} (less, once, h) e = ground (arith, found-fresh next p fs {f = f} h)

mem-cons :
    (k : ℕ) (urls : List String) (ls : Links) (c : ℕ) (fs : List Feed)
    → All (λ f. (f.id == k) ≡ true → not (text_mem f.url urls) ≡ false) fs
    → All (λ f. is_linked ls f.id ≡ true → text_mem f.url urls ≡ true) fs
    → All (λ f. is_linked ((c, k) ∷ ls) f.id ≡ true → text_mem f.url urls ≡ true) fs
mem-cons k urls ls c [] _ _ = tt
mem-cons k urls ls c (f ∷ fs) (h, hs) (e, es) =
    (λ linked. ground (arith, ==_iff f.id k, ==_iff k f.id, h, e), mem-cons k urls ls c fs hs es)

module _ (c : ℕ) (urls : List String) (next : ℕ) (fs : List Feed) (ls : Links) where
  pub link-IsTracked :
      (u : String) (f : Feed)
      → find (has_url u) fs ≡ some f
      → text_mem u urls ≡ true
      → IsTracked c urls next fs ls
      → IsTracked c urls next fs ((c, f.id) ∷ ls)
  link-IsTracked u f found named t = record {
    links = (refl, t.links);
    fresh = (found-fresh next (has_url u) fs {f = f} t.keyed found, t.fresh);
    keyed = t.keyed;
    expected =
        mem-cons f.id urls ls c fs
          (All-not_any f.id (λ g. not (text_mem g.url urls)) fs
            (any-found next (has_url u) (λ g. not (text_mem g.url urls)) fs {f = f} t.keyed found
              (rw ((eq_iff f.url u).0 (find-holds (has_url u) fs {a = f} found)) (rw named))))
          t.expected;
  }

  pub update-IsTracked :
      (q : Feed → Bool) (g : Feed → Feed)
      → ((f : Feed) → (g f).id ≡ f.id)
      → ((f : Feed) → (g f).url ≡ f.url)
      → IsTracked c urls next fs ls
      → IsTracked c urls next (update q g fs) ls
  update-IsTracked q g same url t = record {
    links = t.links;
    fresh = t.fresh;
    keyed = Keyed-update next q g fs same t.keyed;
    expected = expected-update urls q g fs ls same url t.expected;
  }

module _ (c : ℕ) (fs : List Feed) (ls : Links) (u : String) where
  pub link-IsLinked : (id : ℕ) → IsLinked c fs ls u → IsLinked c fs ((c, id) ∷ ls) u
  link-IsLinked id (f, found, linked) = (f, found, later linked)
    where
      later :
          (f.company_id ≡ some c) ⊎ (is_linked ls f.id ≡ true)
          → (f.company_id ≡ some c) ⊎ (is_linked ((c, id) ∷ ls) f.id ≡ true)
      later (inl e) = inl e
      later (inr e) = inr (ground (arith, e))

  pub new_link-IsLinked :
      (f : Feed) → find (has_url u) fs ≡ some f → IsLinked c fs ((c, f.id) ∷ ls) u
  new_link-IsLinked f found = (f, found, inr (rw (==_refl f.id)))

  -- Another URL finds what it found.
  pub insert-IsLinked :
      (f : Feed) → find (has_url f.url) fs ≡ none → IsLinked c fs ls u → IsLinked c (f ∷ fs) ls u
  insert-IsLinked f missing (g, found, linked) = (g, other, linked)
    where
      other : find (has_url u) (f ∷ fs) ≡ some g
      other =
          if-cases (λ (o : Option Feed). o ≡ some g) (str_eq f.url u) _ _
            (λ same. cc (ap (λ v. find (has_url v) fs) ((eq_iff f.url u).0 same), missing, found))
            (λ _. found)

  pub update-IsLinked :
      (q : Feed → Bool) (g : Feed → Feed)
      → ((f : Feed) → (g f).id ≡ f.id)
      → ((f : Feed) → (g f).url ≡ f.url)
      → ((f : Feed) → (g f).company_id ≡ f.company_id)
      → IsLinked c fs ls u
      → IsLinked c (update q g fs) ls u
  update-IsLinked q g same url company (f, found, linked) = (
    if q f then g f else f,
    find-update_map (has_url u) q g fs (λ x. ap (λ v. str_eq v u) (url x))
        ∙ ap (map_option (λ x. if q x then g x else x)) found,
    if-cases (λ (x : Feed). (x.company_id ≡ some c) ⊎ (is_linked ls x.id ≡ true)) (q f) _ _
        (λ _. rw (company f) (rw (same f) linked)) (λ _. linked),
  )
