-- ===== src/Prelude/Run.antt =====
-- Kernel code as a state-passing computation that may not return: `panic` stops the machine, and
-- `do_exit` ends the current process; a call that is modelled up to its `sleep_on` ends there.

pub data Halt : Type 0 where
  panic exited asleep : Halt

pub data Outcome {ℓ} (S A : Type ℓ) : Type ℓ where
  done : A → S → Outcome S A
  halted : Halt → S → Outcome S A

abbrev pub Kernel : Type 0 → Type 0 → Type 0
Kernel S A = S → Outcome S A

infixl 5 ◌>>=◌ ◌>>◌
abbrev pub ◌>>=◌ : {S A B : Type 0} → Kernel S A → (A → Kernel S B) → Kernel S B
◌>>=◌ m f s = elim (m s) [ done a s' ↦ f a s' | halted h s' ↦ halted h s' ]

abbrev pub ◌>>◌ : {S A B : Type 0} → Kernel S A → Kernel S B → Kernel S B
m >> k = m >>= λ _. k

abbrev pub return : {S A : Type 0} → A → Kernel S A
return a s = done a s

abbrev pub stop : {S A : Type 0} → Halt → Kernel S A
stop h s = halted h s

abbrev pub get : {S : Type 0} → Kernel S S
get s = done s s

abbrev pub modify : {S : Type 0} → (S → S) → Kernel S (Unit {0})
modify f s = done tt (f s)
