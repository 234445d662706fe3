-- ===== src/CommandLine.antt =====
-- The command lines that PatchHub hands to the runner, and the errors of reading them: the text of
-- the exception. Texts are ASCII where their case or their digits matter.
pub mod GateArgv
pub mod Parse
use patchhub.Prelude.{String}

pub data Result {ℓ} (A : Type ℓ) : Type ℓ where
  ok : A → Result A
  err : String → Result A

infixl 5 ◌>>=◌
abbrev pub ◌>>=◌ {ℓ κ} : {A : Type ℓ} {B : Type κ} → Result A → (A → Result B) → Result B
ok a >>= f = f a
err e >>= f = err e
