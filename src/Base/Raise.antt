-- ===== src/Base/Raise.antt =====
-- A Python computation that may raise: the exceptions that the modelled code can raise. A loop on fuel
-- that runs out of it has `out_of_fuel`, which no theorem leaves open; `unrepresented` stands where the
-- code goes on with a value that a record of the model has no place for (a list for a name, say).
use mathlib.Core.Path.{◌≡◌, refl, sym, subst}
use nimbus_mesh_x.Base.Tests.{true_ne_false}
use mathlib.Core.Option.{Option, none, some}
use mathlib.Core.List.{List, [], ◌∷◌}
use mathlib.Core.Bool.{Bool, true, false}

pub data Error : Type 0 where
  key_error value_error type_error index_error zero_division_error attribute_error overflow_error
        out_of_fuel unrepresented :
      Error

-- What a call ends with: its value, or the exception.
pub data Result {ℓ} (V : Type ℓ) : Type ℓ where
  ok : V → Result V
  err : Error → Result V

-- `None` where the code raises
abbrev pub or_raise {ℓ} : {V : Type ℓ} → Option V → Error → Result V
or_raise (some v) exception = ok v
or_raise none exception = err exception

-- `if not test: raise error`
abbrev pub guard : Bool → Error → Result (Unit {0})
guard test exception = elim test [ true ↦ ok tt | false ↦ err exception ]

module _ {ℓ κ} {V : Type ℓ} {W : Type κ} where
  infixl 5 ◌>>=◌
  -- An exception ends what comes after it.
  abbrev pub ◌>>=◌ : Result V → (V → Result W) → Result W
  ok v >>= next = next v
  err exception >>= next = err exception

  pub >>=-eq-ok :
      (first : Result V) (next : V → Result W) {w : W}
      → (first >>= next) ≡ ok w
      → (v : V) × (first ≡ ok v) × (next v ≡ ok w)
  >>=-eq-ok (ok v) next h = (v, refl, h)
  >>=-eq-ok (err exception) next h = cc

infixl 5 ◌>>◌
abbrev pub ◌>>◌ {ℓ} : {W : Type ℓ} → Result (Unit {0}) → Result W → Result W
ok done >> rest = rest
err exception >> rest = err exception

pub ok-injective {ℓ} : {A : Type ℓ} (a b : A) → ◌≡◌ {A = Result A} (ok a) (ok b) → a ≡ b
ok-injective a b h = cc

pub or_raise-eq-ok {ℓ} :
    {A : Type ℓ} (o : Option A) (e : Error) {a : A} → or_raise o e ≡ ok a → o ≡ some a
or_raise-eq-ok (some b) e h = cc
or_raise-eq-ok none e h = cc

-- Runs a fallible function over a list, from the left.
abbrev pub traverse {ℓ κ} : {A : Type ℓ} {B : Type κ} → (A → Result B) → List A → Result (List B)
traverse f [] = ok []
traverse f (x ∷ xs) = f x >>= λ y. traverse f xs >>= λ ys. ok (y ∷ ys)

abbrev pub is_ok {ℓ} : {A : Type ℓ} → Result A → Bool
is_ok (ok a) = true
is_ok (err e) = false

-- The value of a computation that does not raise.
abbrev pub value_of {ℓ} : {A : Type ℓ} (m : Result A) → is_ok m ≡ true → (a : A) × (m ≡ ok a)
value_of (ok a) h = (a, refl)
value_of (err e) h = absurd (true_ne_false (sym h))

-- A chain of calls that do not raise does not raise.
pub >>=_total {ℓ κ} :
    {V : Type ℓ} {W : Type κ} (first : Result V) (next : V → Result W)
    → (v : V) × (first ≡ ok v)
    → ((v : V) → first ≡ ok v → (w : W) × (next v ≡ ok w))
    → (w : W) × ((first >>= next) ≡ ok w)
>>=_total (ok v) next made rest = rest v refl
>>=_total (err exception) next (v, e) rest = absurd (cc)

pub >>=-eq_of_ok {ℓ κ} :
    {V : Type ℓ} {W : Type κ} (first : Result V) (next : V → Result W) {v : V}
    → first ≡ ok v
    → (first >>= next) ≡ next v
>>=-eq_of_ok first next h = rw h refl

-- The value has the property, if there is one.
pub record Yields {ℓ κ} {V : Type ℓ} (P : V → Type κ) (m : Result V) : Type (ℓ ⊔ κ) where
  pub holds : (v : V) → m ≡ ok v → P v

pub Yields-ok {ℓ κ} : {V : Type ℓ} (P : V → Type κ) (v : V) → P v → Yields P (ok v)
Yields-ok P v p = record { holds = λ w h. subst P (ok-injective v w h) p }

pub Yields-err {ℓ κ} : {V : Type ℓ} (P : V → Type κ) (e : Error) → Yields P (err e)
Yields-err P e = record { holds = λ w h. absurd (cc) }

pub >>=-Yields {ℓ κ μ ν} :
    {V : Type ℓ} {W : Type κ} (Q : V → Type μ) (P : W → Type ν) (first : Result V)
    (next : V → Result W)
    → Yields Q first
    → ((v : V) → Q v → Yields P (next v))
    → Yields P (first >>= next)
>>=-Yields Q P first next made rest = record {
  holds = λ w h. let (v, e, r) = >>=-eq-ok first next h in (rest v (made.holds v e)).holds w r;
}

pub >>=-Yields_any {ℓ κ ν} :
    {V : Type ℓ} {W : Type κ} (P : W → Type ν) (first : Result V) (next : V → Result W)
    → ((v : V) → Yields P (next v))
    → Yields P (first >>= next)
>>=-Yields_any P first next rest = record {
  holds = λ w h. let (v, e, r) = >>=-eq-ok first next h in (rest v).holds w r;
}
