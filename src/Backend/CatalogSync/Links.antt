-- ===== src/Backend/CatalogSync/Links.antt =====
-- The pending links of one company, and what a flush makes of them.
use manifeed.Common.{
  ℕ, ◌+◌, ◌<◌, ◌≡◌, refl, sym, ap, ◌∙◌, Bool, true, false, ◌⊎◌, inl, inr, some, map_option, List,
  [], ◌∷◌, String, text_mem, arith, any, find, update, All, if◌then◌else◌, if-cases, ◌==◌, ==_iff,
  find-update_map,
}
use manifeed.Db.{Database, Feed, is_feed}
use manifeed.Backend.Sync.{has_url, link_company_to_feed}
use manifeed.Backend.CatalogSync.Writes.{apply_links}
use manifeed.Backend.CatalogSync.Keyed.{Keyed, Keyed-cons, Keyed-update}

abbrev pub Links : Type 0
Links = List (ℕ × ℕ)

abbrev pub is_linked : Links → ℕ → Bool
is_linked ls id = any (λ l. l.1 == id) ls

abbrev pub set_company : ℕ → Feed → Feed
set_company c f = record f { company_id = some c }

abbrev pub with_links : ℕ → Links → List Feed → List Feed
with_links c ls fs = update (λ f. is_linked ls f.id) (set_company c) fs

with_links-cons :
    (c id : ℕ) (ls : Links) (fs : List Feed)
    → update (is_feed id) (set_company c) (with_links c ls fs) ≡ with_links c ((c, id) ∷ ls) fs
with_links-cons c id ls [] = refl
with_links-cons c id ls (f ∷ fs) =
    ground (arith, ==_iff f.id id, ==_iff id f.id, with_links-cons c id ls fs)

with_links-nil : (c : ℕ) (fs : List Feed) → with_links c [] fs ≡ fs
with_links-nil c [] = refl
with_links-nil c (f ∷ fs) = ap (◌∷◌ f) (with_links-nil c fs)

-- Links of one company are applied as one update.
pub apply_links-feeds :
    (c : ℕ) (ls : Links) (db : Database)
    → All (λ l. l.0 ≡ c) ls
    → (apply_links ls db).feeds ≡ with_links c ls db.feeds
unfolding apply_links link_company_to_feed
apply_links-feeds c [] db _ = sym (with_links-nil c db.feeds)
apply_links-feeds c ((d, id) ∷ ls) db (e, h) =
    rw e (rw (apply_links-feeds c ls db h) (with_links-cons c id ls db.feeds))

pub apply_links-next :
    (ls : Links) (db : Database) → (apply_links ls db).next_feed_id ≡ db.next_feed_id
unfolding apply_links link_company_to_feed
apply_links-next [] db = refl
apply_links-next (l ∷ ls) db = apply_links-next ls db

pub apply_links-companies :
    (ls : Links) (db : Database) → (apply_links ls db).companies ≡ db.companies
unfolding apply_links link_company_to_feed
apply_links-companies [] db = refl
apply_links-companies (l ∷ ls) db = apply_links-companies ls db

-- All pending links are of the company and of feeds that the catalogue names, and the ids are keys.
pub record IsTracked (c : ℕ) (urls : List String) (next : ℕ) (fs : List Feed) (ls : Links)
    : Type 0 where
  pub links : All (λ l. l.0 ≡ c) ls
  pub fresh : All (λ l. l.1 < next) ls
  pub keyed : Keyed next fs
  pub expected : All (λ f. is_linked ls f.id ≡ true → text_mem f.url urls ≡ true) fs

-- A URL finds a feed that is, or is to be, of the company.
abbrev pub IsLinked : ℕ → List Feed → Links → String → Type 0
IsLinked c fs ls u =
    (f : Feed) × (find (has_url u) fs ≡ some f)
    × ((f.company_id ≡ some c) ⊎ (is_linked ls f.id ≡ true))

fresh-not_linked : (next : ℕ) (ls : Links) → All (λ l. l.1 < next) ls → is_linked ls next ≡ false
fresh-not_linked next [] _ = refl
fresh-not_linked next (l ∷ ls) (less, h) = ground (arith, fresh-not_linked next ls h)

fresh-suc : (next : ℕ) (ls : Links) → All (λ l. l.1 < next) ls → All (λ l. l.1 < next + 1) ls
fresh-suc next [] _ = tt
fresh-suc next (l ∷ ls) (less, h) = (omega arith, fresh-suc next ls h)

none_expected :
    (urls : List String) (fs : List Feed)
    → All (λ f. is_linked [] f.id ≡ true → text_mem f.url urls ≡ true) fs
none_expected urls [] = tt
none_expected urls (f ∷ fs) = (λ h. cc, none_expected urls fs)

pub start-IsTracked :
    (c : ℕ) (urls : List String) (next : ℕ) (fs : List Feed)
    → Keyed next fs
    → IsTracked c urls next fs []
start-IsTracked c urls next fs h = record {
  links = tt;
  fresh = tt;
  keyed = h;
  expected = none_expected urls fs;
}

module _ (c : ℕ) (urls : List String) (next : ℕ) (fs : List Feed) (ls : Links) where
  pub flush-IsTracked : IsTracked c urls next fs ls → IsTracked c urls next (with_links c ls fs) []
  flush-IsTracked t =
      start-IsTracked c urls next (with_links c ls fs)
        (Keyed-update next _ (set_company c) fs (λ f. refl) t.keyed)

  pub insert-IsTracked :
      (f : Feed)
      → f.id ≡ next
      → IsTracked c urls next fs ls
      → IsTracked c urls (next + 1) (f ∷ fs) ls
  insert-IsTracked f e t = record {
    links = t.links;
    fresh = fresh-suc next ls t.fresh;
    keyed = Keyed-cons next f fs e t.keyed;
    expected = (λ h. cc (h, e, fresh-not_linked next ls t.fresh), t.expected);
  }

  pub flush-IsLinked : (u : String) → IsLinked c fs ls u → IsLinked c (with_links c ls fs) [] u
  flush-IsLinked u (f, found, linked) =
      let after =
        find-update_map (has_url u) (λ x. is_linked ls x.id) (set_company c) fs (λ x. refl)
        ∙ ap (map_option (λ x. if is_linked ls x.id then set_company c x else x)) found in
      (if is_linked ls f.id then set_company c f else f, after, inl (of_company f linked))
    where
      of_company :
          (f : Feed)
          → (f.company_id ≡ some c) ⊎ (is_linked ls f.id ≡ true)
          → (if is_linked ls f.id then set_company c f else f).company_id ≡ some c
      of_company f (inl e) =
          if-cases (λ (x : Feed). x.company_id ≡ some c) (is_linked ls f.id) _ _ (λ _. refl)
            (λ _. e)
      of_company f (inr e) = rw e refl

pub expected-update :
    (urls : List String) (q : Feed → Bool) (g : Feed → Feed) (fs : List Feed) (ls : Links)
    → ((f : Feed) → (g f).id ≡ f.id)
    → ((f : Feed) → (g f).url ≡ f.url)
    → All (λ f. is_linked ls f.id ≡ true → text_mem f.url urls ≡ true) fs
    → All (λ f. is_linked ls f.id ≡ true → text_mem f.url urls ≡ true) (update q g fs)
expected-update urls q g [] ls same url _ = tt
expected-update urls q g (f ∷ fs) ls same url (h, hs) = (
  if-cases (λ (x : Feed). is_linked ls x.id ≡ true → text_mem x.url urls ≡ true) (q f) _ _
      (λ _ linked. rw (url f) (h (rw (same f) at linked))) (λ _. h),
  expected-update urls q g fs ls same url hs,
)
