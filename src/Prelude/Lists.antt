-- ===== src/Prelude/Lists.antt =====
-- Lists measured by native numbers, filtered by Boolean tests, and the suffixes a bounded deque keeps.
use Prim.Native.Nat.{ℕ, zero, suc, ◌+◌, ◌-◌, ◌≤◌}
use Prim.Native.String.{String}
use mathlib.Core.Path.{◌≡◌, refl, ap, ◌∙◌, sym}
use mathlib.Core.Bool.{Bool, false, not, true, ◌&&◌, ◌||◌}
use mathlib.Core.List.{List, [], ◌∷◌, ◌++◌}
use native.Mathlib.Omega.{arith}
use text.Mathlib.Text.{◌==◌}
use text.Mathlib.TextEquality.{eq_iff}
use patchhub.Prelude.Tests.{if◌then◌else◌}

module _ {ℓ} {A : Type ℓ} where
  abbrev pub length : List A → ℕ
  length [] = 0
  length (x ∷ xs) = suc (length xs)

  abbrev pub drop : ℕ → List A → List A
  drop zero xs = xs
  drop (suc n) [] = []
  drop (suc n) (x ∷ xs) = drop n xs

  abbrev pub take : ℕ → List A → List A
  take zero xs = []
  take (suc n) [] = []
  take (suc n) (x ∷ xs) = x ∷ take n xs

  -- The last `n` items: what a `deque(maxlen=n)` holds after the items were appended in turn.
  abbrev pub keep_last : ℕ → List A → List A
  keep_last n xs = drop (length xs - n) xs

  -- A comprehension's `if`.
  abbrev pub select : (A → Bool) → List A → List A
  select p [] = []
  select p (x ∷ xs) = let rest = select p xs in if p x then x ∷ rest else rest

  abbrev pub All {κ} : (A → Type κ) → List A → Type κ
  All P [] = Unit
  All P (x ∷ xs) = P x × All P xs

  pub length-append : (xs ys : List A) → length (xs ++ ys) ≡ length xs + length ys
  length-append [] ys = omega arith
  length-append (x ∷ xs) ys = omega (arith, length-append xs ys)

  pub length-drop : (n : ℕ) (xs : List A) → length (drop n xs) ≡ length xs - n
  length-drop zero xs = omega arith
  length-drop (suc n) [] = omega arith
  length-drop (suc n) (x ∷ xs) = omega (arith, length-drop n xs)

  pub drop_all : (n : ℕ) (xs : List A) → length xs ≤ n → drop n xs ≡ []
  drop_all zero [] h = refl
  drop_all zero (x ∷ xs) h = absurd (omega arith)
  drop_all (suc n) [] h = refl
  drop_all (suc n) (x ∷ xs) h = drop_all n xs (omega arith)

  pub drop-append : (n : ℕ) (xs ys : List A) → n ≤ length xs → drop n (xs ++ ys) ≡ drop n xs ++ ys
  drop-append zero xs ys h = refl
  drop-append (suc n) [] ys h = absurd (omega arith)
  drop-append (suc n) (x ∷ xs) ys h = drop-append n xs ys (omega arith)

  pub drop-drop : (m n : ℕ) (xs : List A) → drop m (drop n xs) ≡ drop (n + m) xs
  drop-drop m zero xs = let e : zero + m ≡ m = omega arith in ap (λ k. drop k xs) (sym e)
  drop-drop zero (suc n) [] =
      let e : suc n + zero ≡ suc n = omega arith in ap (λ (k : ℕ). drop k []) (sym e)
  drop-drop (suc m) (suc n) [] =
      let e : suc n + suc m ≡ suc (n + suc m) = omega arith in ap (λ (k : ℕ). drop k []) (sym e)
  drop-drop m (suc n) (x ∷ xs) =
      let e : suc n + m ≡ suc (n + m) = omega arith in
      drop-drop m n xs ∙ ap (λ k. drop k (x ∷ xs)) (sym e)

  pub select-append :
      (p : A → Bool) (xs ys : List A) → select p (xs ++ ys) ≡ select p xs ++ select p ys
  select-append p [] ys = refl
  select-append p (x ∷ xs) ys = ground (arith, select-append p xs ys)

-- A bounded deque forgets nothing more when it is filled in two goes.
pub keep_last-keep_last {ℓ} :
    {A : Type ℓ} (n : ℕ) (xs ys : List A)
    → keep_last n (keep_last n xs ++ ys) ≡ keep_last n (xs ++ ys)
keep_last-keep_last n xs ys =
    let d : ℕ = length xs - n in
    let joined : drop d (xs ++ ys) ≡ drop d xs ++ ys = drop-append d xs ys (omega arith) in
    let size : length (drop d xs ++ ys) ≡ (length xs - d) + length ys =
      omega (arith, length-append (drop d xs) ys, length-drop d xs) in
    let total : d + (length (drop d xs ++ ys) - n) ≡ length (xs ++ ys) - n =
      omega (arith, length-append xs ys) in
    ap (drop (length (drop d xs ++ ys) - n)) (sym joined)
    ∙ drop-drop (length (drop d xs ++ ys) - n) d (xs ++ ys)
    ∙ ap (λ k. drop k (xs ++ ys)) total

pub length-keep_last {ℓ} : {A : Type ℓ} (n : ℕ) (xs : List A) → length (keep_last n xs) ≤ n
length-keep_last n xs = omega (arith, length-drop (length xs - n) xs)

pub keep_last_short {ℓ} : {A : Type ℓ} (n : ℕ) (xs : List A) → length xs ≤ n → keep_last n xs ≡ xs
keep_last_short n xs h = let e : length xs - n ≡ zero = omega arith in ap (λ k. drop k xs) e

-- `s in names`
unfoldable pub contains : List String → String → Bool
contains [] s = false
contains (x ∷ xs) s = x == s || contains xs s

pub contains_nil : (p : String) → contains [] p ≡ false
unfolding contains
contains_nil p = refl

pub contains_cons :
    (x : String) (xs : List String) (p : String) → contains (x ∷ xs) p ≡ (x == p || contains xs p)
unfolding contains
contains_cons x xs p = refl

pub contains-append :
    (xs : List String) (x p : String) → contains (xs ++ (x ∷ [])) p ≡ (contains xs p || x == p)
unfolding contains
contains-append [] x p = ground arith
contains-append (y ∷ xs) x p = ground (arith, contains-append xs x p)

-- No name comes twice.
unfoldable pub is_distinct : List String → Bool
is_distinct [] = true
is_distinct (x ∷ xs) = not (contains xs x) && is_distinct xs

pub is_distinct-append :
    (xs : List String) (x : String)
    → is_distinct xs ≡ true
    → contains xs x ≡ false
    → is_distinct (xs ++ (x ∷ [])) ≡ true
unfolding is_distinct contains
is_distinct-append [] x d n = ground arith
is_distinct-append (y ∷ xs) x d n =
    ground (arith, contains-append xs x y, is_distinct-append xs x, eq_iff x y, eq_iff y x)

pub contains-append_all :
    (xs ys : List String) (p : String) → contains (xs ++ ys) p ≡ (contains xs p || contains ys p)
unfolding contains
contains-append_all [] ys p = refl
contains-append_all (x ∷ xs) ys p = ground (arith, contains-append_all xs ys p)
