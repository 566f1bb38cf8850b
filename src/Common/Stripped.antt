-- ===== src/Common/Stripped.antt =====
-- Laws of the text operations: stripping is idempotent, and a cleaned text is stripped and is not
-- empty.
use Prim.Native.Char.{Char, code}
use Prim.Native.String.{String}
use mathlib.Core.Path.{◌≡◌, refl, ap}
use mathlib.Core.Logic.{inl, inr}
use mathlib.Core.Bool.{false}
use mathlib.Core.Option.{some}
use native.Mathlib.Omega.{arith}
use manifeed.Common.Tests.{Bool-cases}
use manifeed.Common.Text.{is_space, is_empty, lstrip, rstrip, push_stripped, strip, clean_text}

rstrip_idem : (s : String) → rstrip (rstrip s) ≡ rstrip s
unfolding rstrip
rstrip_idem String.[] = refl
rstrip_idem (String.◌∷◌ c s) = rstrip-push (rstrip s) (rstrip_idem s)
  where
    rstrip-push : (r : String) → rstrip r ≡ r → rstrip (push_stripped c r) ≡ push_stripped c r
    rstrip-push String.[] h = elim (Bool-cases (is_space (code c))) [
      | inl e ↦ rw e
      | inr e ↦ rw e (rw e)
    ]
    rstrip-push (String.◌∷◌ d t) h = ap (push_stripped c) h

lstrip-push :
    (r : String) (c : Char)
    → is_space (code c) ≡ false
    → lstrip (push_stripped c r) ≡ push_stripped c r
unfolding lstrip
lstrip-push String.[] c h = rw h (rw h)
lstrip-push (String.◌∷◌ d t) c h = rw h

lstrip-rstrip-lstrip : (s : String) → lstrip (rstrip (lstrip s)) ≡ rstrip (lstrip s)
unfolding lstrip rstrip
lstrip-rstrip-lstrip String.[] = refl
lstrip-rstrip-lstrip (String.◌∷◌ c s) = elim (Bool-cases (is_space (code c))) [
  | inl e ↦ rw e (lstrip-rstrip-lstrip s)
  | inr e ↦ rw e (lstrip-push (rstrip s) c e)
]

pub strip_idem : (s : String) → strip (strip s) ≡ strip s
unfolding strip
strip_idem s = rw lstrip-rstrip-lstrip (rstrip_idem (lstrip s))

-- What cleaning a text returns is stripped and is not empty.
pub clean_text-strip :
    (s : String) {t : String} → clean_text s ≡ some t → (strip t ≡ t) × (is_empty t ≡ false)
unfolding clean_text
clean_text-strip s {t} h = ground (arith, strip_idem s)

-- A cleaned text is cleaned to itself.
pub clean_text_idem : (s : String) {t : String} → clean_text s ≡ some t → clean_text t ≡ some t
clean_text_idem s {t} h = let (e, n) = clean_text-strip s h in unfold clean_text in rw e (rw n)
