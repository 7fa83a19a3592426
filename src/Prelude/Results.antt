-- ===== src/Prelude/Results.antt =====
-- A call that may fail with an error, and its `do` notation.
use mathlib.Core.Bool.{Bool, true, false, false≢true}
use mathlib.Core.Path.{Path, ◌≡◌, refl, ap}
use mathlib.Core.Option.{Option, none, some}
use resy_snipe.Prelude.Tests.{if◌then◌else◌, is_none}
use mathlib.Core.Logic.{◌≢◌}

pub data Result {ℓ} (E A : Type ℓ) : Type ℓ where
  ok : A → Result E A
  err : E → Result E A

infixl 5 ◌>>=◌ ◌>>◌
abbrev pub ◌>>=◌ {ℓ} : {E A B : Type ℓ} → Result E A → (A → Result E B) → Result E B
ok a >>= f = f a
err e >>= f = err e

abbrev pub ◌>>◌ {ℓ} : {E A B : Type ℓ} → Result E A → Result E B → Result E B
m >> k = m >>= λ _. k

-- `if refused { return e }`.
abbrev pub refuse_if : {E : Type 0} → Bool → E → Result E (Unit {0})
refuse_if true e = err e
refuse_if false e = ok tt

abbrev pub is_ok {ℓ} : {E A : Type ℓ} → Result E A → Bool
is_ok (ok a) = true
is_ok (err e) = false

pub err≢ok {ℓ} : {E A : Type ℓ} {e : E} {a : A} → err e ≢ ok a
err≢ok h = false≢true (ap is_ok h)

abbrev value_or {ℓ} : {E A : Type ℓ} → A → Result E A → A
value_or a (ok b) = b
value_or a (err e) = a

pub ok_inj {ℓ} : {E A : Type ℓ} {a b : A} → Path (Result E A) (ok a) (ok b) → a ≡ b
ok_inj {a = a} h = ap (value_or a) h

-- What passes a guard was not refused by it.
pub guard_ok {ℓ} :
    {E A : Type ℓ} {a : A} (b : Bool) (e : E) (m : Result E A)
    → (if b then err e else m) ≡ ok a
    → (b ≡ false) × (m ≡ ok a)
guard_ok true e m h = absurd (err≢ok h)
guard_ok false e m h = (refl, h)

pub guard_last {ℓ} :
    {E A : Type ℓ} {a a' : A} (b : Bool) (e : E)
    → (if b then ok a' else err e) ≡ ok a
    → (b ≡ true) × (a' ≡ a)
guard_last true e h = (refl, ok_inj h)
guard_last false e h = absurd (err≢ok h)

pub is_none→none {ℓ} : {A : Type ℓ} (o : Option A) → is_none o ≡ true → o ≡ none
is_none→none none h = refl
is_none→none (some a) h = absurd (false≢true h)

-- `if err != nil { return wrap(err) }`.
abbrev pub map_err {ℓ} : {E F A : Type ℓ} → (E → F) → Result E A → Result F A
map_err f (ok a) = ok a
map_err f (err e) = err (f e)

pub bind_ok {ℓ} :
    {E A B : Type ℓ} {b : B} (m : Result E A) (k : A → Result E B)
    → (m >>= k) ≡ ok b
    → (a : A) × (m ≡ ok a) × (k a ≡ ok b)
bind_ok (ok a) k h = (a, refl, h)
bind_ok (err e) k h = absurd (err≢ok h)

pub map_err-ok {ℓ} :
    {E F A : Type ℓ} {a : A} (f : E → F) (m : Result E A) → map_err f m ≡ ok a → m ≡ ok a
map_err-ok f (ok a) h = ap ok (ok_inj h)
map_err-ok f (err e) h = absurd (err≢ok h)
