-- ===== src/Gates/Members.antt =====
-- A test of every path of a list, for the gates of scripts/am_patch/gates.py.
use patchhub.Prelude.{
  Bool, List, String, [], arith, contains, eq_iff, eq_refl, not, refl, select, sym, true, ◌&&◌,
  ◌++◌, ◌||◌, ◌∙◌, ◌∷◌, ◌≡◌,
}

abbrev pub all_of : (String → Bool) → List String → Bool
all_of test [] = true
all_of test (p ∷ ps) = test p && all_of test ps

pub all_of-contains :
    (test : String → Bool) (xs : List String) (p : String)
    → all_of test xs ≡ true
    → contains xs p ≡ true
    → test p ≡ true
unfolding contains
all_of-contains test [] p all c = cc
all_of-contains test (x ∷ xs) p all c =
    ground (arith, eq_iff x p, all_of-contains test xs p, all, c)

all_of_members :
    (test : String → Bool) (xs : List String)
    → ((p : String) → contains xs p ≡ true → test p ≡ true)
    → all_of test xs ≡ true
unfolding contains
all_of_members test [] h = refl
all_of_members test (x ∷ xs) h =
    let head : test x ≡ true = h x (ground (arith, eq_refl x)) in
    let tail = all_of_members test xs (λ p c. h p (ground (arith, c))) in ground (arith, head, tail)

pub all_of-sorted :
    (sorted : List String → List String) (test : String → Bool) (xs : List String)
    → ((p : String) → contains (sorted xs) p ≡ contains xs p)
    → all_of test (sorted xs) ≡ all_of test xs
all_of-sorted sorted test xs same =
    let to : all_of test (sorted xs) ≡ true → all_of test xs ≡ true =
      λ all. all_of_members test xs (λ p c. all_of-contains test (sorted xs) p all (same p ∙ c)) in
    let from : all_of test xs ≡ true → all_of test (sorted xs) ≡ true = λ all.
      all_of_members test (sorted xs) (λ p c. all_of-contains test xs p all (sym (same p) ∙ c)) in
    ground (arith, to, from)

pub all_of-select :
    (test keep : String → Bool) (xs : List String)
    → all_of test (select keep xs) ≡ all_of (λ p. not (keep p) || test p) xs
all_of-select test keep [] = refl
all_of-select test keep (x ∷ xs) = ground (arith, all_of-select test keep xs)

pub all_of-append :
    (test : String → Bool) (xs : List String) (p : String)
    → all_of test (xs ++ (p ∷ [])) ≡ (all_of test xs && test p)
all_of-append test [] p = ground arith
all_of-append test (x ∷ xs) p = ground (arith, all_of-append test xs p)

pub all_of_same :
    (f g : String → Bool) (xs : List String)
    → ((p : String) → f p ≡ g p)
    → all_of f xs ≡ all_of g xs
all_of_same f g [] h = refl
all_of_same f g (x ∷ xs) h = ground (arith, h x, all_of_same f g xs h)
