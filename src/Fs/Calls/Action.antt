-- ===== src/Fs/Calls/Action.antt =====
-- Actions on a state that may stop, as in Prelude, with a bind that stays shut in proofs.
use linux_0_11_read.Prelude.{
  Bool, true, false, Option, none, some, Kernel, Outcome, done, halted, panic,
}

module _ {S A : Type 0} where
  unfoldable pub pure : A → Kernel S A
  pure a s = done a s

  unfoldable pub gets : (S → A) → Kernel S A
  gets f s = done (f s) s

  unfoldable pub stop_machine : Kernel S A
  stop_machine s = halted panic s

  abbrev pub continue : {B : Type 0} → Outcome S A → (A → Kernel S B) → Outcome S B
  continue (done a s) f = f a s
  continue (halted h s) f = halted h s

infixl 5 ◌>>=◌ ◌>>◌
unfoldable pub ◌>>=◌ : {S A B : Type 0} → Kernel S A → (A → Kernel S B) → Kernel S B
◌>>=◌ m f s = continue (m s) f

abbrev pub ◌>>◌ : {S A B : Type 0} → Kernel S A → Kernel S B → Kernel S B
m >> n = m >>= λ _. n

-- `if (test) …; else …`
unfoldable pub choose : {S A : Type 0} → Bool → Kernel S A → Kernel S A → Kernel S A
choose true m n = m
choose false m n = n

-- A test for null, and the rest of the code with what the pointer shows.
unfoldable pub when_found : {S A B : Type 0} → Option A → Kernel S B → (A → Kernel S B) → Kernel S B
when_found none missing f = missing
when_found (some a) missing f = f a
