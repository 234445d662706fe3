-- ===== src/CommandLine/GateArgv/Canonical.antt =====
-- The canonical form of the gate options is a fixed point.
use patchhub.Dict.{Dict, insert, lookup, lookup-insert}
use patchhub.Prelude.{
  All, Bool, List, Option, String, [], ap, arith, eq_iff, false, if◌then◌else◌, none, refl, some,
  true, ◌++◌, ◌<>◌, ◌==◌, ◌∙◌, ◌∷◌, ◌≡◌,
}
use patchhub.CommandLine.{ok}
use patchhub.CommandLine.GateArgv.{
  GateOption, build_gate_argv, build_loop, flag_to_option, gate_options, has_key, option_argv,
  parse_override_pair, split_loop, validate_gate_argv,
}

-- What an option's own tokens are read as.
abbrev IsRead : GateOption → Type 0
IsRead item =
    (flag_to_option gate_options item.cli_flag ≡ some item)
    × (parse_override_pair (item.key <> ("=" <> "true")) ≡ ok (item.key, true))
    × (parse_override_pair (item.key <> ("=" <> "false")) ≡ ok (item.key, false))

gate_options-IsRead : All IsRead gate_options
unfolding flag_to_option parse_override_pair
gate_options-IsRead = (
  (refl, refl, refl),
  (
    (refl, refl, refl),
    (
      (refl, refl, refl),
      (
        (refl, refl, refl),
        (
          (refl, refl, refl),
          (
            (refl, refl, refl),
            (
              (refl, refl, refl),
              (
                (refl, refl, refl),
                ((refl, refl, refl), ((refl, refl, refl), ((refl, refl, refl), tt))),
              ),
            ),
          ),
        ),
      ),
    ),
  ),
)

abbrev HasKey : GateOption → Type 0
HasKey item = has_key gate_options item.key ≡ true

gate_options-HasKey : All HasKey gate_options
unfolding has_key
gate_options-HasKey =
    (refl, (refl, (refl, (refl, (refl, (refl, (refl, (refl, (refl, (refl, (refl, tt)))))))))))

abbrev put : GateOption → Option Bool → Dict Bool → Dict Bool
put item none acc = acc
put item (some value) acc = insert item.key value acc

-- The states that the tokens of `build_loop` are read as, onto `acc`.
absorb : List GateOption → Dict Bool → Dict Bool → Dict Bool
absorb [] states acc = acc
absorb (item ∷ opts) states acc = absorb opts states (put item (lookup item.key states) acc)

override-not-flag : flag_to_option gate_options "--override" ≡ none
unfolding flag_to_option
override-not-flag = refl

split_loop-flag :
    (flag : String) (item : GateOption) (rest : List String) (acc : Dict Bool)
    → flag_to_option gate_options flag ≡ some item
    → split_loop (flag ∷ rest) false acc []
      ≡ split_loop rest false (insert item.key item.direct_true acc) []
unfolding split_loop
split_loop-flag flag item rest acc e = rw (e, split_loop)

split_loop-override :
    (pair key : String) (value : Bool) (rest : List String) (acc : Dict Bool)
    → parse_override_pair pair ≡ ok (key, value)
    → split_loop ("--override" ∷ pair ∷ rest) false acc []
      ≡ split_loop rest false (insert key value acc) []
unfolding split_loop
split_loop-override pair key value rest acc e = rw (override-not-flag, split_loop) (rw e)

split_loop-some :
    (item : GateOption) (value direct : Bool) (rest : List String) (acc : Dict Bool)
    → IsRead item
    → item.direct_true ≡ direct
    → split_loop (option_argv item (some value) ++ rest) false acc []
      ≡ split_loop rest false (insert item.key value acc) []
split_loop-some item true true rest acc r d =
    rw d (rw d at (split_loop-flag item.cli_flag item rest acc r.0))
split_loop-some item false false rest acc r d =
    rw d (rw d at (split_loop-flag item.cli_flag item rest acc r.0))
split_loop-some item true false rest acc r d =
    rw d (split_loop-override (item.key <> ("=" <> "true")) item.key true rest acc r.1)
split_loop-some item false true rest acc r d =
    rw d (split_loop-override (item.key <> ("=" <> "false")) item.key false rest acc r.2)

split_loop-option_argv :
    (item : GateOption) (value : Option Bool) (rest : List String) (acc : Dict Bool)
    → IsRead item
    → split_loop (option_argv item value ++ rest) false acc []
      ≡ split_loop rest false (put item value acc) []
split_loop-option_argv item none rest acc r = refl
split_loop-option_argv item (some value) rest acc r =
    split_loop-some item value item.direct_true rest acc r refl

split_loop-build_loop :
    (opts : List GateOption) (states acc : Dict Bool)
    → All IsRead opts
    → split_loop (build_loop opts states) false acc [] ≡ ok ([], absorb opts states acc)
unfolding build_loop absorb
split_loop-build_loop [] states acc r = unfold split_loop in refl
split_loop-build_loop (item ∷ opts) states acc r =
    split_loop-option_argv item (lookup item.key states) (build_loop opts states) acc r.0
    ∙ split_loop-build_loop opts states (put item (lookup item.key states) acc) r.1

abbrev or_in : Option Bool → Option Bool → Option Bool
or_in none o = o
or_in (some b) o = some b

lookup-put :
    (item : GateOption) (value : Option Bool) (acc : Dict Bool) (j : String)
    → lookup j (put item value acc)
      ≡ (if item.key == j then or_in value (lookup j acc) else lookup j acc)
lookup-put item none acc j = ground arith
lookup-put item (some value) acc j = lookup-insert item.key j value acc

lookup-absorb :
    (opts : List GateOption) (states acc : Dict Bool) (j : String)
    → lookup j (absorb opts states acc)
      ≡ (if has_key opts j then or_in (lookup j states) (lookup j acc) else lookup j acc)
unfolding absorb has_key
lookup-absorb [] states acc j = refl
lookup-absorb (item ∷ opts) states acc j = ground (
  arith,
  lookup-absorb opts states (put item (lookup item.key states) acc) j,
  lookup-put item (lookup item.key states) acc j,
  eq_iff item.key j,
)

build_loop-ext :
    (opts : List GateOption) (s t : Dict Bool)
    → All (λ item. lookup item.key s ≡ lookup item.key t) opts
    → build_loop opts s ≡ build_loop opts t
unfolding build_loop
build_loop-ext [] s t h = refl
build_loop-ext (item ∷ opts) s t (e, h) = rw (e, build_loop-ext opts s t h)

absorbed :
    (opts : List GateOption) (states : Dict Bool)
    → All HasKey opts
    → All (λ item. lookup item.key (absorb gate_options states []) ≡ lookup item.key states) opts
unfolding lookup
absorbed [] states h = tt
absorbed (item ∷ opts) states (known, h) =
    (ground (arith, lookup-absorb gate_options states [] item.key), absorbed opts states h)

-- The canonical tokens of any states are accepted and read back as the same canonical tokens.
pub validate_gate_argv-build_gate_argv :
    (states : Dict Bool) → validate_gate_argv (build_gate_argv states) ≡ ok (build_gate_argv states)
unfolding validate_gate_argv
validate_gate_argv-build_gate_argv states =
    rw (split_loop-build_loop gate_options states [] gate_options-IsRead) (
      ap ok (
        build_loop-ext gate_options (absorb gate_options states []) states
          (absorbed gate_options states gate_options-HasKey)))
