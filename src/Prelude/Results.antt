-- ===== src/Prelude/Results.antt =====
-- What a C++ call can end in: a value, one of the exceptions that the driver throws, an access that
-- the language leaves undefined, or a wait for another thread (`blocked`).
use mathlib.Core.Path.{◌≡◌, refl, ap, ◌∙◌}
use mathlib.Core.Logic.{◌≢◌}
use mathlib.Core.Bool.{Bool, true, false}
use mathlib.Core.List.{List, [], ◌∷◌, map}

pub data Error : Type 0 where
  runtime_error invalid_argument filesystem_error out_of_range : Error
  option_error json_error bad_alloc bad_array_new_length : Error
  undefined blocked : Error

pub data Result {ℓ} (A : Type ℓ) : Type ℓ where
  ok : A → Result A
  err : Error → Result A

-- `if (b) throw e;`
abbrev pub throw_if : Bool → Error → Result (Unit {0})
throw_if true e = err e
throw_if false e = ok tt

-- A call, and what comes after it unless it throws.
abbrev pub ◌>>=◌ {ℓ κ} :
    {Mid : Type ℓ} {End : Type κ} → Result Mid → (Mid → Result End) → Result End
ok value >>= next = next value
err e >>= next = err e

infixl 5 ◌>>=◌
-- A call made for its checks only.
abbrev pub ◌>>◌ {ℓ} : {End : Type ℓ} → Result (Unit {0}) → Result End → Result End
check >> next = check >>= λ done. next

infixl 5 ◌>>◌
-- A call for each element, in order.
abbrev pub traverse {ℓ κ} : {A : Type ℓ} {B : Type κ} → (A → Result B) → List A → Result (List B)
traverse f [] = ok []
traverse f (x ∷ xs) = f x >>= λ y. traverse f xs >>= λ ys. ok (y ∷ ys)

pub traverse-map {ℓ κ ι} :
    {A : Type ℓ} {B : Type κ} {C : Type ι} (f : B → Result C) (g : A → B) (h : A → C) (xs : List A)
    → ((x : A) → f (g x) ≡ ok (h x))
    → traverse f (map g xs) ≡ ok (map h xs)
traverse-map f g h [] all = refl
traverse-map f g h (x ∷ xs) all = rw (all x, traverse-map f g h xs all) refl

-- When a chain succeeds, its first call did, and the rest did on what that returned.
pub >>=-eq-ok {ℓ κ} :
    {Mid : Type ℓ} {End : Type κ} (call : Result Mid) (next : Mid → Result End) {last : End}
    → (call >>= next) ≡ ok last
    → (mid : Mid) × (call ≡ ok mid) × (next mid ≡ ok last)
>>=-eq-ok (err thrown) next done = cc
>>=-eq-ok (ok value) next done = (value, refl, done)

pub ok-inj {ℓ} : {A : Type ℓ} {a b : A} → ok a ≡ ok b → a ≡ b
ok-inj {a = a} e = ap (λ r. elim r [ ok x ↦ x | err _ ↦ a ]) e

pub >>=-assoc {ℓ κ ι} :
    {A : Type ℓ} {B : Type κ} {C : Type ι} (m : Result A) (f : A → Result B) (g : B → Result C)
    → (m >>= f >>= g) ≡ (m >>= λ a. f a >>= g)
>>=-assoc (ok a) f g = refl
>>=-assoc (err e) f g = refl

pub >>=-ok {ℓ} : {A : Type ℓ} (m : Result A) → (m >>= ok) ≡ m
>>=-ok (ok a) = refl
>>=-ok (err e) = refl

pub ok-≢-err {ℓ} : {A : Type ℓ} {a : A} {e : Error} → ok a ≢ err e
ok-≢-err h = cc

-- Two chains that begin with the same call, of which the first does what the second does with one
-- more call behind it.
pub >>=-push {ℓ κ ι} :
    {A : Type ℓ} {B : Type κ} {C : Type ι} (m : Result A) (f : A → Result B) (f' : A → Result C)
    (g : B → Result C)
    → ((a : A) → f' a ≡ (f a >>= g))
    → (m >>= f') ≡ (m >>= f >>= g)
>>=-push (ok a) f f' g h = h a
>>=-push (err e) f f' g h = refl

-- The same, where the first call of the first chain already ends in one more call.
pub >>=-push_through {ℓ κ ι} :
    {A : Type ℓ} {B : Type κ} {C : Type ι} (m m' : Result A) (k : A → Result A) (f : A → Result B)
    (f' : A → Result C) (g : B → Result C)
    → m' ≡ (m >>= k)
    → ((a : A) → (k a >>= f') ≡ (f a >>= g))
    → (m' >>= f') ≡ (m >>= f >>= g)
>>=-push_through (ok a) m' k f f' g e h = ap (λ r. r >>= f') e ∙ h a
>>=-push_through (err e') m' k f f' g e h = ap (λ r. r >>= f') e

pub >>=-cong {ℓ κ} :
    {A : Type ℓ} {B : Type κ} (m : Result A) (f g : A → Result B)
    → ((a : A) → f a ≡ g a)
    → (m >>= f) ≡ (m >>= g)
>>=-cong (ok a) f g h = h a
>>=-cong (err e) f g h = refl
