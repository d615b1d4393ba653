-- ===== src/Prelude/Results.antt =====
-- Go's `(value, error)` pairs as a sum, with the chaining of `if err != nil { return err }`.
use mathlib.Core.Path.{◌≡◌, refl, ap}
use mathlib.Core.Logic.{◌⊎◌, inl, inr}

-- `stuck` is no Go value: it says that a model which runs on fuel ran out of it.
pub data Result {ℓ κ} (E : Type ℓ) (A : Type κ) : Type (ℓ ⊔ κ) where
  ok : A → Result E A
  err : E → Result E A
  stuck : Result E A

infixl 5 ◌>>=◌ ◌>>◌
abbrev pub ◌>>=◌ {ℓ κ μ} :
    {E : Type ℓ} {A : Type κ} {B : Type μ} → Result E A → (A → Result E B) → Result E B
ok a >>= f = f a
err e >>= f = err e
stuck >>= f = stuck

abbrev pub ◌>>◌ {ℓ κ μ} :
    {E : Type ℓ} {A : Type κ} {B : Type μ} → Result E A → Result E B → Result E B
m >> k = m >>= λ _. k

-- `fmt.Errorf("...: %w", err)`: the error of a callee under a label of the caller.
abbrev pub wrap {ℓ κ} : {E : Type ℓ} {A : Type κ} → (E → E) → Result E A → Result E A
wrap f (ok a) = ok a
wrap f (err e) = err (f e)
wrap f stuck = stuck

pub Result-cases {ℓ κ} :
    {E : Type ℓ} {A : Type κ} (r : Result E A)
    → ((a : A) × (r ≡ ok a)) ⊎ ((e : E) × (r ≡ err e)) ⊎ (r ≡ stuck)
Result-cases (ok a) = inl (a, refl)
Result-cases (err e) = inr (inl (e, refl))
Result-cases stuck = inr (inr refl)

-- The model did not run out of fuel: there is a value or an error.
abbrev pub Ends {ℓ κ} : {E : Type ℓ} {A : Type κ} → Result E A → Type 0
Ends (ok a) = Unit {0}
Ends (err e) = Unit {0}
Ends stuck = ⊥

-- To use a successful chain, use its two steps.
pub ok-bind {ℓ κ μ ν} :
    {E : Type ℓ} {A : Type κ} {B : Type μ} {P : Type ν} (m : Result E A) (f : A → Result E B)
    {b : B}
    → (m >>= f) ≡ ok b
    → ((a : A) → m ≡ ok a → f a ≡ ok b → P)
    → P
ok-bind (ok a) f e k = k a refl e
ok-bind (err x) f e k = cc
ok-bind stuck f e k = cc

pub Ends-bind {ℓ κ μ} :
    {E : Type ℓ} {A : Type κ} {B : Type μ} (m : Result E A) (f : A → Result E B)
    → Ends m
    → ((a : A) → m ≡ ok a → Ends (f a))
    → Ends (m >>= f)
Ends-bind (ok a) f hm h = h a refl
Ends-bind (err e) f hm h = tt
Ends-bind stuck f hm h = absurd hm

pub Ends-wrap {ℓ κ} :
    {E : Type ℓ} {A : Type κ} (f : E → E) (r : Result E A) → Ends r → Ends (wrap f r)
Ends-wrap f (ok a) h = tt
Ends-wrap f (err e) h = tt
Ends-wrap f stuck h = absurd h

pub wrap-eq-ok {ℓ κ} :
    {E : Type ℓ} {A : Type κ} (f : E → E) (r : Result E A) {a : A} → wrap f r ≡ ok a → r ≡ ok a
wrap-eq-ok f (ok a) e = e
wrap-eq-ok f (err x) e = cc
wrap-eq-ok f stuck e = cc

pub ok-injective {ℓ κ} :
    {E : Type ℓ} {A : Type κ} {a b : A} → ◌≡◌ {A = Result E A} (ok a) (ok b) → a ≡ b
ok-injective {E} {A} {a} e = ap value e
  where
    value : Result E A → A
    value (ok x) = x
    value (err x) = a
    value stuck = a

-- What one computation answers without an error, another answers too.
abbrev pub Keeps {ℓ κ} : {E : Type ℓ} {A : Type κ} → Result E A → Result E A → Type (ℓ ⊔ κ)
Keeps {E} {A} m n = (a : A) → m ≡ ok a → n ≡ ok a

pub Keeps-bind {ℓ κ μ} :
    {E : Type ℓ} {A : Type κ} {B : Type μ} (m n : Result E A) {f g : A → Result E B}
    → Keeps m n
    → ((a : A) → Keeps (f a) (g a))
    → Keeps (m >>= f) (n >>= g)
Keeps-bind m n {f} keeps each b e = ok-bind m f e λ a from after. rw (keeps a from) (each a b after)
