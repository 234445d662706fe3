-- ===== src/Answers.antt =====
-- The answers of code that can fail: what holds of an answer, if there is one, and how it passes
-- through the steps of a `do` block.
use patchhub.Prelude.{Bool, false, true, ◌≡◌}
use patchhub.CommandLine.{Result, err, ok, ◌>>=◌}

abbrev pub is_ok {ℓ} : {A : Type ℓ} → Result A → Bool
is_ok (ok a) = true
is_ok (err message) = false

abbrev pub Answers {ℓ κ} : {A : Type ℓ} → (A → Type κ) → Result A → Type κ
Answers P (ok a) = P a
Answers P (err message) = Unit

pub Answers-bind {ℓ κ μ} :
    {A : Type ℓ} {B : Type κ} (P : B → Type μ) (r : Result A) (f : A → Result B)
    → ((a : A) → Answers P (f a))
    → Answers P (r >>= f)
Answers-bind P (ok a) f h = h a
Answers-bind P (err message) f h = tt

-- A step whose answer is known.
pub Answers-known {ℓ κ μ} :
    {A : Type ℓ} {B : Type κ} (P : B → Type μ) (r : Result A) (f : A → Result B) (a : A)
    → r ≡ ok a
    → Answers P (f a)
    → Answers P (r >>= f)
Answers-known P r f a e h = rw e h

-- A step whose answer has a property.
pub Answers-then {ℓ κ μ ν} :
    {A : Type ℓ} {B : Type κ} (P : A → Type μ) (Q : B → Type ν) (r : Result A) (f : A → Result B)
    → Answers P r
    → ((a : A) → P a → Answers Q (f a))
    → Answers Q (r >>= f)
Answers-then P Q (ok a) f p h = h a p
Answers-then P Q (err message) f p h = tt

pub Answers-weaken {ℓ κ μ} :
    {A : Type ℓ} (P : A → Type κ) (Q : A → Type μ) (r : Result A)
    → Answers P r
    → ((a : A) → P a → Answers Q (ok a))
    → Answers Q r
Answers-weaken P Q (ok a) p h = h a p
Answers-weaken P Q (err message) p h = tt
