-- ===== src/Worker/Normalize/Sources.antt =====
-- What the sources of a result are, in themselves and against the entries of the feed.
use mathlib.Core.Path.{subst}
use manifeed.Common.{
  clean_optional_text, normalize_optional_datetime, ok-injective, ◌||◌, raise_if, Error, ◌≡◌, ◌≤◌,
  ◌<◌, ◌⊎◌, refl, Bool, true, false, not, inl, inr, Option, none, some, List, [], ◌∷◌, String,
  Instant, aware, east, year_2026, arith, All, text_mem, leb, Bool-cases, Option-cases, eq_refl, ok,
  >>=-eq-ok,
}
use manifeed.DbManager.Payload.{WorkerSource, valid_source, valid_sources}
use manifeed.Worker.Normalize.{
  Entry, is_published_from_2026, source_with, source_of, normalize_from, normalize_feed_sources,
}

abbrev pub urls : List WorkerSource → List String
urls [] = []
urls (s ∷ ss) = s.url ∷ urls ss

-- No URL is there twice, nor among those that were seen.
abbrev pub Distinct : List String → List String → Type 0
Distinct seen [] = Unit
Distinct seen (u ∷ us) = (text_mem u seen ≡ false) × Distinct (u ∷ seen) us

-- A date from 2026 on, in UTC.
abbrev pub IsRecent : WorkerSource → Type 0
IsRecent s = (t : Instant) × (s.published_at ≡ some (aware t (east 0))) × (year_2026 ≤ t)

-- The URL of a source was seen, or is one of those of the sources `ss`.
abbrev HasUrl : List String → List WorkerSource → Option WorkerSource → Type 0
HasUrl seen ss none = Unit
HasUrl seen ss (some s) = (text_mem s.url seen || text_mem s.url (urls ss)) ≡ true

abbrev IsSeen : List String → List WorkerSource → Entry → Type 0
IsSeen seen ss e = HasUrl seen ss (source_of e)

-- Of a cleaned title, a cleaned URL and a date: the date is from before 2026, or the URL is one of
-- those of the sources. Nothing is said where one of the three is missing.
abbrev pub Covers : List WorkerSource → Option String → Option String → Option Instant → Type 0
Covers ss none url d = Unit
Covers ss (some title) none d = Unit
Covers ss (some title) (some url) none = Unit
Covers ss (some title) (some url) (some t) = (t < year_2026) ⊎ (text_mem url (urls ss) ≡ true)

abbrev pub IsCovered : List WorkerSource → Entry → Type 0
IsCovered ss e =
    Covers ss (clean_optional_text e.title) (clean_optional_text e.url)
      (normalize_optional_datetime e.published_at)

-- What the loop returns, behind the URLs that it has seen.
pub record Normalized (seen : List String) (sources : List WorkerSource) : Type 0 where
  pub valid : valid_sources sources ≡ true
  pub recent : All IsRecent sources
  pub distinct : Distinct seen (urls sources)

source_with-IsRecent :
    (e : Entry) (title url : Option String) (d : Option Instant) {s : WorkerSource}
    → source_with e title url d ≡ some s
    → IsRecent s
unfolding source_with is_published_from_2026
source_with-IsRecent e none url d {s} h = cc
source_with-IsRecent e (some title) none d {s} h = cc
source_with-IsRecent e (some title) (some url) none {s} h = cc
source_with-IsRecent e (some title) (some url) (some t) {s} h =
    elim (Bool-cases (leb year_2026 t)) [
      | inl recent ↦ (t, ground arith, ground arith)
      | inr old ↦ cc (rw old at h)
    ]

raise-valid : (b : Bool) (a : Unit {0}) → raise_if (not b) Error.value_error ≡ ok a → b ≡ true
raise-valid true a h = refl
raise-valid false a h = cc

source_of-IsRecent : (e : Entry) {s : WorkerSource} → source_of e ≡ some s → IsRecent s
unfolding source_of
source_of-IsRecent e {s} h =
    source_with-IsRecent e (clean_optional_text e.title) (clean_optional_text e.url)
      (normalize_optional_datetime e.published_at) {s = s} h

Normalized-cons :
    (seen : List String) (s : WorkerSource) (rest ss : List WorkerSource)
    → ok (s ∷ rest) ≡ ok ss
    → valid_source s ≡ true
    → IsRecent s
    → text_mem s.url seen ≡ false
    → Normalized (s.url ∷ seen) rest
    → Normalized seen ss
unfolding valid_sources
Normalized-cons seen s rest ss e valid recent new h =
    subst (Normalized seen) (ok-injective (s ∷ rest) ss e) (record {
      valid = rw valid h.valid;
      recent = (recent, h.recent);
      distinct = (new, h.distinct);
    })

normalize_from-Normalized :
    (seen : List String) (es : List Entry) (ss : List WorkerSource)
    → normalize_from seen es ≡ ok ss
    → Normalized seen ss
unfolding normalize_from valid_sources
normalize_from-Normalized seen [] [] h = record { valid = refl; recent = tt; distinct = tt }
normalize_from-Normalized seen [] (s ∷ ss) h = cc
normalize_from-Normalized seen (e ∷ es) ss h = elim (Option-cases (source_of e)) [
  | inl unusable ↦ normalize_from-Normalized seen es ss (rw (unusable, normalize_from) at h)
  | inr (s, usable) ↦ elim (Bool-cases (text_mem s.url seen)) [
    | inl old ↦ normalize_from-Normalized seen es ss (rw old at (rw (usable, normalize_from) at h))
    | inr new ↦
        let (u, valid, k) =
          >>=-eq-ok (raise_if (not (valid_source s)) Error.value_error) _
            (rw new at (rw (usable, normalize_from) at h)) in
        let (rest, r, same) = >>=-eq-ok (normalize_from (s.url ∷ seen) es) _ k in
        let n = normalize_from-Normalized (s.url ∷ seen) es rest r in
        Normalized-cons seen s rest ss same (raise-valid (valid_source s) u valid)
          (source_of-IsRecent e usable) new n
  ]
]

HasUrl-cons :
    (seen : List String) (s : WorkerSource) (rest : List WorkerSource) (o : Option WorkerSource)
    → HasUrl (s.url ∷ seen) rest o
    → HasUrl seen (s ∷ rest) o
HasUrl-cons seen s rest none h = tt
HasUrl-cons seen s rest (some t) h = ground arith

IsSeen-cons :
    (seen : List String) (s : WorkerSource) (rest ss : List WorkerSource) (e : Entry)
    → ok (s ∷ rest) ≡ ok ss
    → IsSeen (s.url ∷ seen) rest e
    → IsSeen seen ss e
IsSeen-cons seen s rest ss e same h =
    subst (λ x. IsSeen seen x e) (ok-injective (s ∷ rest) ss same)
      (HasUrl-cons seen s rest (source_of e) h)

All-cons :
    (seen : List String) (s : WorkerSource) (rest ss : List WorkerSource) (es : List Entry)
    → ok (s ∷ rest) ≡ ok ss
    → All (IsSeen (s.url ∷ seen) rest) es
    → All (IsSeen seen ss) es
All-cons seen s rest ss [] same h = tt
All-cons seen s rest ss (e ∷ es) same (c, h) =
    (IsSeen-cons seen s rest ss e same c, All-cons seen s rest ss es same h)

or-true : (b : Bool) → (b || true) ≡ true
or-true true = refl
or-true false = refl

IsSeen-here :
    (seen : List String) (s : WorkerSource) (rest ss : List WorkerSource) (e : Entry)
    → ok (s ∷ rest) ≡ ok ss
    → source_of e ≡ some s
    → IsSeen seen ss e
IsSeen-here seen s rest ss e same usable =
    subst (λ x. IsSeen seen x e) (ok-injective (s ∷ rest) ss same)
      (rw usable (rw (eq_refl s.url) (or-true (text_mem s.url seen))))

normalize_from-IsSeen :
    (seen : List String) (es : List Entry) (ss : List WorkerSource)
    → normalize_from seen es ≡ ok ss
    → All (IsSeen seen ss) es
unfolding normalize_from
normalize_from-IsSeen seen [] ss h = tt
normalize_from-IsSeen seen (e ∷ es) ss h = elim (Option-cases (source_of e)) [
  | inl unusable ↦
      (rw unusable tt, normalize_from-IsSeen seen es ss (rw (unusable, normalize_from) at h))
  | inr (s, usable) ↦ elim (Bool-cases (text_mem s.url seen)) [
    | inl old ↦ (
      rw usable (rw old),
      normalize_from-IsSeen seen es ss (rw old at (rw (usable, normalize_from) at h)),
    )
    | inr new ↦
        let (u, valid, k) =
          >>=-eq-ok (raise_if (not (valid_source s)) Error.value_error) _
            (rw new at (rw (usable, normalize_from) at h)) in
        let (rest, r, same) = >>=-eq-ok (normalize_from (s.url ∷ seen) es) _ k in
        (
          IsSeen-here seen s rest ss e same usable,
          All-cons seen s rest ss es same (normalize_from-IsSeen (s.url ∷ seen) es rest r),
        )
  ]
]

source_with-Covers :
    (ss : List WorkerSource) (e : Entry) (title url : Option String) (d : Option Instant)
    → HasUrl [] ss (source_with e title url d)
    → Covers ss title url d
unfolding source_with is_published_from_2026
source_with-Covers ss e none url d h = tt
source_with-Covers ss e (some title) none d h = tt
source_with-Covers ss e (some title) (some url) none h = tt
source_with-Covers ss e (some title) (some url) (some t) h = elim (Bool-cases (leb year_2026 t)) [
  | inl recent ↦ inr (rw recent at h)
  | inr old ↦ inl (ground arith)
]

All-IsCovered :
    (ss : List WorkerSource) (es : List Entry) → All (IsSeen [] ss) es → All (IsCovered ss) es
unfolding source_of
All-IsCovered ss [] h = tt
All-IsCovered ss (e ∷ es) (h, hs) = (
  source_with-Covers ss e (clean_optional_text e.title) (clean_optional_text e.url)
      (normalize_optional_datetime e.published_at) h,
  All-IsCovered ss es hs,
)

-- Where normalising succeeds, every source meets its constraints, has a date in UTC from 2026 on,
-- and a URL that no other source has; and for every entry whose cleaned title and URL are not empty
-- and whose date in UTC is from 2026 on, the cleaned URL is among theirs.
pub normalize_feed_sources-Normalized :
    (entries : List Entry) (sources : List WorkerSource)
    → normalize_feed_sources entries ≡ ok sources
    → Normalized [] sources × All (IsCovered sources) entries
unfolding normalize_feed_sources
normalize_feed_sources-Normalized entries sources h = (
  normalize_from-Normalized [] entries sources h,
  All-IsCovered sources entries (normalize_from-IsSeen [] entries sources h),
)
