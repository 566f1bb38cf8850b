-- ===== src/Common/Raise.antt =====
-- Code that may raise. The errors are those of the program, of its web framework and of its
-- database; a message is kept where the source makes it part of the behaviour.
use Prim.Native.Nat.{ℕ}
use mathlib.Core.Path.{◌≡◌, refl, ap, subst}
use native.Mathlib.Omega.{arith}
use mathlib.Core.Logic.{◌⊎◌, inl, inr}
use mathlib.Core.Bool.{Bool, true, false}

pub data Error : Type 0 where
  http_exception : ℕ → Error
  feed_not_found company_not_found toggle_forbidden job_already_running : Error
  queue_publish repository_sync catalog_parse icon_not_found git_sync : Error
  integrity_error data_error driver_error : Error
  value_error overflow_error attribute_error queue_error worker_authentication db_manager : Error

-- What a call comes to: an exception that leaves it, or a value.
pub data Outcome {ℓ} (A : Type ℓ) : Type ℓ where
  err : (raised : Error) → Outcome A
  ok : (returned : A) → Outcome A

abbrev pub raise_if : Bool → Error → Outcome (Unit {0})
raise_if false _ = ok tt
raise_if true e = err e

-- The statements behind a call run unless it raises.
module _ {ℓ κ} {A : Type ℓ} {B : Type κ} where
  infixl 5 ◌>>=◌
  abbrev pub ◌>>=◌ : Outcome A → (A → Outcome B) → Outcome B
  err e >>= rest = err e
  ok a >>= rest = rest a

infixl 5 ◌>>◌
abbrev pub ◌>>◌ {κ} : {B : Type κ} → Outcome (Unit {0}) → Outcome B → Outcome B
first >> second = first >>= λ _. second

-- Where a call and the statements behind it return, each of them does.
module _ {ℓ κ} {A : Type ℓ} {B : Type κ} where
  pub >>=-eq-ok :
      (call : Outcome A) (rest : A → Outcome B) {result : B}
      → (call >>= rest) ≡ ok result
      → (value : A) × (call ≡ ok value) × (rest value ≡ ok result)
  >>=-eq-ok (err raised) rest returns = cc
  >>=-eq-ok (ok value) rest returns = (value, refl, returns)

-- Where a call with statements behind it raises, one of them does.
module _ {ℓ κ} {A : Type ℓ} {B : Type κ} where
  pub >>=-eq-err :
      (call : Outcome A) (rest : A → Outcome B) {e : Error}
      → (call >>= rest) ≡ err e
      → (call ≡ err e) ⊎ ((value : A) × (call ≡ ok value) × (rest value ≡ err e))
  >>=-eq-err (err raised) rest {e} raises = inl (ground arith)
  >>=-eq-err (ok value) rest {e} raises = inr (value, refl, raises)

pub ok-injective {ℓ} : {A : Type ℓ} (a b : A) → Outcome.ok a ≡ ok b → a ≡ b
ok-injective a b e = ap (λ x. elim x [ ok c ↦ c | err _ ↦ a ]) e

-- No error of `m` is another one than `x`.
pub record RaisesOnly {ℓ} {A : Type ℓ} (x : Error) (m : Outcome A) : Type ℓ where
  pub only : (e : Error) → m ≡ err e → e ≡ x

pub ok-RaisesOnly {ℓ} : {A : Type ℓ} (x : Error) (a : A) → RaisesOnly x (ok a)
ok-RaisesOnly x a = record { only = λ e h. cc }

pub >>=-RaisesOnly {ℓ} :
    {A B : Type ℓ} (x : Error) (m : Outcome A) (f : A → Outcome B)
    → RaisesOnly x m
    → ((a : A) → RaisesOnly x (f a))
    → RaisesOnly x (m >>= f)
>>=-RaisesOnly x (ok a) f h k = k a
>>=-RaisesOnly x (err e) f h k = record { only = λ e' p. h.only e' (ground arith) }

pub raise_if-RaisesOnly : (x : Error) (b : Bool) → RaisesOnly x (raise_if b x)
raise_if-RaisesOnly x true = record { only = λ e h. ground arith }
raise_if-RaisesOnly x false = ok-RaisesOnly x tt

-- What holds of the value where a call returns one.
abbrev pub WhenOk {ℓ κ} : {A : Type ℓ} → (A → Type κ) → Outcome A → Type κ
WhenOk P (err e) = Unit
WhenOk P (ok a) = P a

pub any-WhenOk {ℓ} : {A : Type ℓ} (m : Outcome A) → WhenOk (λ _. Unit {0}) m
any-WhenOk (err e) = tt
any-WhenOk (ok a) = tt

pub >>=-WhenOk {ℓ κ} :
    {A : Type ℓ} {B : Type κ} (Q : A → Type 0) (P : B → Type 0) (m : Outcome A) (f : A → Outcome B)
    → WhenOk Q m
    → ((a : A) → Q a → WhenOk P (f a))
    → WhenOk P (m >>= f)
>>=-WhenOk Q P (err e) f h k = tt
>>=-WhenOk Q P (ok a) f h k = k a h

pub WhenOk-eq {ℓ} :
    {A : Type ℓ} (P : A → Type 0) (m : Outcome A) {a : A} → WhenOk P m → m ≡ ok a → P a
WhenOk-eq P (err e) h k = cc
WhenOk-eq P (ok b) {a} h k = subst P (ok-injective b a k) h

pub WhenOk-imp {ℓ} :
    {A : Type ℓ} (P Q : A → Type 0) (m : Outcome A)
    → WhenOk P m
    → ((a : A) → P a → Q a)
    → WhenOk Q m
WhenOk-imp P Q (err e) h k = tt
WhenOk-imp P Q (ok a) h k = k a h
