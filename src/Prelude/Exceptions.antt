-- ===== src/Prelude/Exceptions.antt =====
-- Exceptions as values: `ok` for a value, `err` for a raised exception.
use Prim.Native.String.{String}
use mathlib.Core.Path.{◌≡◌, refl, sym}

-- The exception classes that the program tells apart, or raises itself.
pub data ExcKind : Type 0 where
  value_error type_error key_error index_error runtime_error attribute_error : ExcKind
  file_not_found os_error timeout_error cancelled_error config_error lock_error db_config_error
        yaml_error :
      ExcKind

-- A class and the text of `str(exc)`.
pub record Exc : Type 0 where
  pub kind : ExcKind
  pub message : String

pub data Result {ℓ} (A : Type ℓ) : Type ℓ where
  ok : A → Result A
  err : Exc → Result A

abbrev pub raise {ℓ} : {A : Type ℓ} → ExcKind → String → Result A
raise kind message = err (record { kind = kind; message = message })

infixl 5 ◌>>=◌
-- The rest of a `try`-less block after its first statement: an exception leaves it out.
abbrev pub ◌>>=◌ {κ ℓ} :
    {B : Type κ} {A : Type ℓ} (first : Result A) (rest : A → Result B) → Result B
err exc >>= rest = err exc
ok value >>= rest = rest value

-- An exception escapes.
abbrev pub Raises {ℓ} : {A : Type ℓ} → Result A → Type ℓ
Raises r = (e : Exc) × (r ≡ err e)

-- A value is returned.
abbrev pub Returns {ℓ} : {A : Type ℓ} → Result A → Type ℓ
Returns {A} r = (a : A) × (r ≡ ok a)

pub ok-ne-err {ℓ} : {A : Type ℓ} (a : A) (e : Exc) → ok a ≡ err e → ⊥
ok-ne-err a e p = cc

-- Whatever the first part does, an exception of the rest escapes.
pub >>=-Raises {ℓ} :
    {A B : Type ℓ} (m : Result A) (f : A → Result B) → ((a : A) → Raises (f a)) → Raises (m >>= f)
>>=-Raises (ok a) f h = h a
>>=-Raises (err e) f h = (e, refl)

pub >>=-Raises_left {ℓ} :
    {A B : Type ℓ} (m : Result A) (f : A → Result B) → Raises m → Raises (m >>= f)
>>=-Raises_left (ok a) f (e, p) = absurd (ok-ne-err a e p)
>>=-Raises_left (err e) f h = (e, refl)

pub >>=-Returns {ℓ} :
    {A B : Type ℓ} (m : Result A) (f : A → Result B)
    → Returns m
    → ((a : A) → m ≡ ok a → Returns (f a))
    → Returns (m >>= f)
>>=-Returns (ok a) f r h = h a refl
>>=-Returns (err e) f (a, p) h = absurd (ok-ne-err a e (sym p))

pub err-injective {ℓ} : {A : Type ℓ} (x y : Exc) → Path (Result A) (err x) (err y) → x ≡ y
err-injective x y e = cc

pub ok-injective {ℓ} : {A : Type ℓ} (a b : A) → ok a ≡ ok b → a ≡ b
ok-injective a b p = cc

-- A value of the whole comes from a value of the first part.
pub invert {ℓ} :
    {A B : Type ℓ} (m : Result A) (f : A → Result B) (b : B)
    → (m >>= f) ≡ ok b
    → (a : A) × (m ≡ ok a) × (f a ≡ ok b)
invert (ok a) f b e = (a, refl, e)
invert (err x) f b e = absurd (ok-ne-err b x (sym e))
