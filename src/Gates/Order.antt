-- ===== src/Gates/Order.antt =====
-- Which gates run, and what their failures come to.
use mathlib.Core.Path.{ap}
use patchhub.Prelude.{
  Bool, Bool-cases, List, String, [], ap, append-nil, append_assoc, arith, contains, false,
  if_keeps, if◌then◌else◌, inl, inr, not, refl, select, sym, true, ◌&&◌, ◌++◌, ◌<>◌, ◌==◌, ◌||◌,
  ◌∙◌, ◌∷◌, ◌≡◌, ◌⊎◌,
}
use patchhub.Prelude.Text.{strip, upper}
use patchhub.CommandLine.{Result, err, ok}
use patchhub.Gates.{
  Answer, Run, Verdict, after_gate, conclude, fail, gate_loop, gate_names, has_failures, no_run,
  norm_gates_order, note, passed, ran, report, run_gates, skip, skip_missing, skipped_by, stopped,
}

abbrev pub is_passed : Verdict → Bool
is_passed passed = true
is_passed (stopped e) = false

abbrev pub result_of : Answer → Result Bool
result_of (skipped_by line) = ok true
result_of (ran r) = r

abbrev is_failure : Result Bool → Bool
is_failure (ok b) = not b
is_failure (err e) = false

abbrev is_error : Result Bool → Bool
is_error (ok b) = false
is_error (err e) = true

abbrev words_of : Result Bool → List String
words_of (ok b) = "DO" ∷ (if b then "OK" else "FAIL") ∷ []
words_of (err e) = "DO" ∷ []

-- The list up to its first element that passes the test, that one included.
abbrev pub through : (String → Bool) → List String → List String
through p [] = []
through p (g ∷ gs) = let rest = through p gs in g ∷ (if p g then [] else rest)

abbrev pub any_of : (String → Bool) → List String → Bool
any_of p [] = false
any_of p (g ∷ gs) = p g || any_of p gs

module _ (answer : String → Answer) (run_all : Bool) where
  abbrev pub fails : String → Bool
  fails g = is_failure (result_of (answer g))

  abbrev pub raises : String → Bool
  raises g = is_error (result_of (answer g))

  -- The gates that run.
  abbrev pub tried : List String → List String
  tried order = through (λ g. raises g || fails g && not run_all) order

  abbrev shown : List String → String → List String
  shown [] g = []
  shown (w ∷ ws) g = (w <> ":GATE_" <> upper g) ∷ shown ws g

  -- The progress that a list of gates reports.
  abbrev pub all_shown : List String → List String
  all_shown [] = []
  all_shown (g ∷ gs) = shown (words_of (result_of (answer g))) g ++ all_shown gs

  -- What a run of the gates ends in: its progress, its failures, and whether it passes.
  abbrev pub Ends : Bool → List String → List String → Bool → Run × Verdict → Type 0
  Ends allow_fail progress failures raised end =
      (end.0.progress ≡ progress)
      × (end.0.failures ≡ failures)
      × (is_passed end.1 ≡ (not raised && (allow_fail || not (has_failures failures))))

  conclude-Ends :
      (allow_fail : Bool) (run : Run)
      → Ends allow_fail run.progress run.failures false (conclude allow_fail run)
  unfolding conclude
  conclude-Ends allow_fail run = (ground arith, ground arith, ground arith)

  Answer-cases :
      (a : Answer)
      → ((l : String) × (a ≡ skipped_by l))
        ⊎ (a ≡ ran (ok true))
        ⊎ (a ≡ ran (ok false))
        ⊎ ((e : String) × (a ≡ ran (err e)))
  Answer-cases (skipped_by l) = inl (l, refl)
  Answer-cases (ran (ok true)) = inr (inl refl)
  Answer-cases (ran (ok false)) = inr (inr (inl refl))
  Answer-cases (ran (err e)) = inr (inr (inr (e, refl)))

  abbrev line : String → String → String
  line w g = w <> ":GATE_" <> upper g

  append_two :
      (xs : List String) (a b : String) (ys : List String)
      → ((xs ++ (a ∷ [])) ++ (b ∷ [])) ++ ys ≡ xs ++ (a ∷ b ∷ ys)
  append_two xs a b ys =
      append_assoc (xs ++ (a ∷ [])) (b ∷ []) ys ∙ append_assoc xs (a ∷ []) (b ∷ ys)

  abbrev later : List String → Answer → List String
  later order a =
      if is_error (result_of a) || is_failure (result_of a) && not run_all then [] else tried order

  -- The loop on one more gate, by the answer of that gate.
  abbrev Next : Bool → String → List String → Run → Answer → Type 0
  Next allow_fail g order run a =
      Ends allow_fail
        (run.progress ++ (shown (words_of (result_of a)) g ++ all_shown (later order a)))
        (run.failures
          ++ (if is_failure (result_of a)
              then g ∷ select fails (later order a)
              else select fails (later order a)))
        (is_error (result_of a) || any_of raises (later order a))
        (after_gate run_all allow_fail g (gate_loop answer run_all allow_fail order)
          (note g a (report "DO" g run)))

  abbrev Rest : Bool → List String → Type 0
  Rest allow_fail order =
      (run : Run)
      → Ends allow_fail (run.progress ++ all_shown (tried order))
          (run.failures ++ select fails (tried order)) (any_of raises (tried order))
          (gate_loop answer run_all allow_fail order run)

  has_failures-append : (xs : List String) (g : String) → has_failures (xs ++ (g ∷ [])) ≡ true
  has_failures-append [] g = refl
  has_failures-append (x ∷ xs) g = refl

  fails-Next :
      (allow_fail : Bool) (g : String) (order : List String) (run : Run)
      → Rest allow_fail order
      → Next allow_fail g order run (ran (ok false))
  unfolding after_gate
  fails-Next allow_fail g order run rest = elim (Bool-cases run_all) [
    | inl e ↦
        let (p, f, v) = rest (fail g (report "FAIL" g (report "DO" g run))) in
        let moved : run.failures ++ (g ∷ []) ++ select fails (tried order)
            ≡ run.failures ++ (g ∷ select fails (tried order)) =
          append_assoc run.failures (g ∷ []) (select fails (tried order)) in
        let ended : Ends allow_fail
            (run.progress ++ (line "DO" g ∷ line "FAIL" g ∷ all_shown (tried order)))
            (run.failures ++ (g ∷ select fails (tried order))) (any_of raises (tried order))
            (gate_loop answer run_all allow_fail order
              (fail g (report "FAIL" g (report "DO" g run)))) =
          (
            p ∙ append_two run.progress (line "DO" g) (line "FAIL" g) (all_shown (tried order)),
            f ∙ moved,
            v
                ∙ ap
                    (λ xs.
                      not (any_of raises (tried order)) && (allow_fail || not (has_failures xs)))
                    moved,
          ) in
        rw e (rw e at ended)
    | inr ne ↦ elim (Bool-cases allow_fail) [
      | inl a ↦
          rw (ne, a, has_failures-append run.failures g)
            (append_assoc run.progress (line "DO" g ∷ []) (line "FAIL" g ∷ []), refl, refl)
      | inr na ↦
          rw (ne, na, has_failures-append run.failures g)
            (append_assoc run.progress (line "DO" g ∷ []) (line "FAIL" g ∷ []), refl, refl)
    ]
  ]

  gate_loop-Next :
      (allow_fail : Bool) (g : String) (order : List String) (run : Run) (a : Answer)
      → Rest allow_fail order
      → Next allow_fail g order run a
  unfolding after_gate
  gate_loop-Next allow_fail g order run (skipped_by l) rest =
      let (p, f, v) = rest (report "OK" g (skip g l (report "DO" g run))) in
      (p ∙ append_two run.progress (line "DO" g) (line "OK" g) (all_shown (tried order)), f, v)
  gate_loop-Next allow_fail g order run (ran (ok true)) rest =
      let (p, f, v) = rest (report "OK" g (report "DO" g run)) in
      (p ∙ append_two run.progress (line "DO" g) (line "OK" g) (all_shown (tried order)), f, v)
  gate_loop-Next allow_fail g order run (ran (ok false)) rest =
      fails-Next allow_fail g order run rest
  gate_loop-Next allow_fail g order run (ran (err e)) rest =
      (refl, sym (append-nil run.failures), refl)

  gate_loop-Ends : (allow_fail : Bool) (order : List String) → Rest allow_fail order
  unfolding gate_loop
  gate_loop-Ends allow_fail [] run =
      rw (append-nil run.progress, append-nil run.failures) (conclude-Ends allow_fail run)
  gate_loop-Ends allow_fail (g ∷ order) run =
      gate_loop-Next allow_fail g order run (answer g) (gate_loop-Ends allow_fail order)

skip_missing-keeps :
    (order gates : List String) (run : Run)
    → ((skip_missing order gates run).progress ≡ run.progress)
      × ((skip_missing order gates run).failures ≡ run.failures)
unfolding skip_missing
skip_missing-keeps order [] run = (refl, refl)
skip_missing-keeps order (g ∷ gates) run =
    let next : Run =
      if contains order g then run else skip g ("gate_" <> g <> "=SKIP (not in gates_order)") run in
    let (p, f) = skip_missing-keeps order gates next in
    (
      p
          ∙ if_keeps (λ r. r.progress ≡ run.progress) (contains order g) run
              (skip g ("gate_" <> g <> "=SKIP (not in gates_order)") run) (λ _. refl) (λ _. refl),
      f
          ∙ if_keeps (λ r. r.failures ≡ run.failures) (contains order g) run
              (skip g ("gate_" <> g <> "=SKIP (not in gates_order)") run) (λ _. refl) (λ _. refl),
    )

no_failures-nil : (xs : List String) → has_failures xs ≡ false → xs ≡ []
no_failures-nil [] e = refl
no_failures-nil (x ∷ xs) e = cc

abbrev pub is_mode : String → Bool
is_mode mode = strip mode == "auto" || strip mode == "always"

-- With a valid mode of the typescript gate, the gates run in their normalised order, up to the
-- first that raises an error or, unless all are to run, fails: each of them reports that it starts
-- and, unless it raises, whether it passed. The failures are those of the gates that ran, in order.
-- The run passes exactly if none of these raised, and failures are allowed or there are none.
pub run_gates-Ends :
    (answer : String → Answer) (run_all allow_fail : Bool) (mode : String)
    (gates_order : List String)
    → is_mode mode ≡ true
    → Ends answer run_all allow_fail
        (all_shown answer run_all (tried answer run_all (norm_gates_order gates_order)))
        (select (fails answer run_all) (tried answer run_all (norm_gates_order gates_order)))
        (any_of (raises answer run_all) (tried answer run_all (norm_gates_order gates_order)))
        (run_gates answer run_all allow_fail mode gates_order)
unfolding run_gates
run_gates-Ends answer run_all allow_fail mode gates_order valid =
    elim (Bool-cases (has_failures (norm_gates_order gates_order))) [
      | inl some_gate ↦
          let (p, f) = skip_missing-keeps (norm_gates_order gates_order) gate_names no_run in
          rw (valid, some_gate)
            (rw (p, f) at
              (gate_loop-Ends answer run_all allow_fail (norm_gates_order gates_order)
                (skip_missing (norm_gates_order gates_order) gate_names no_run)))
      | inr no_gate ↦
          rw (valid, no_gate, no_failures-nil (norm_gates_order gates_order) no_gate)
            (refl, refl, ground arith)
    ]
