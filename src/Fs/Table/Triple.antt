-- ===== src/Fs/Table/Triple.antt =====
-- What holds after an action that returns, given what holds before: the rules.
use linux_0_11_read.Prelude.{
  ◌≡◌, refl, Option, none, some, Bool, true, false, Kernel, Outcome, done, halted,
}
use linux_0_11_read.Fs.Calls.Action.{pure, gets, stop_machine, ◌>>=◌, continue, choose, when_found}
use linux_0_11_read.Fs.Table.{Inodes, wait_for_ever}

unfoldable pub Ends : {S A : Type 0} → (A → S → Type 0) → Outcome S A → Type 0
Ends after (halted h t) = Unit {0}
Ends after (done a t) = after a t

pub record Triple {S A : Type 0} (before : S → Type 0) (m : Kernel S A) (after : A → S → Type 0)
    : Type 0 where
  pub at : (s : S) → before s → Ends after (m s)

continue-Ends :
    {S A B : Type 0} {after : A → S → Type 0} {mid : B → S → Type 0} (o : Outcome S B)
    (f : B → Kernel S A)
    → Ends mid o
    → ((b : B) → Triple (mid b) (f b) after)
    → Ends after (continue o f)
unfolding Ends
continue-Ends (halted h t) f p q = tt
continue-Ends (done b t) f p q = (q b).at t p

weaker :
    {S A : Type 0} {after goal : A → S → Type 0} (o : Outcome S A)
    → ((a : A) (s : S) → after a s → goal a s)
    → Ends after o
    → Ends goal o
unfolding Ends
weaker (halted h t) f p = tt
weaker (done a t) f p = f a t p

module _ {S A : Type 0} {before : S → Type 0} {after : A → S → Type 0} where
  pub Triple-bind :
      {B : Type 0} {mid : B → S → Type 0} {m : Kernel S B} {f : B → Kernel S A}
      → Triple before m mid
      → ((b : B) → Triple (mid b) (f b) after)
      → Triple before (m >>= f) after
  unfolding ◌>>=◌
  Triple-bind {m = m} {f = f} p q = record { at = λ s h. continue-Ends (m s) f (p.at s h) q }

  pub Triple-stop : Triple before stop_machine after
  unfolding stop_machine Ends
  Triple-stop = record { at = λ s h. tt }

  pub Triple-choose :
      (b : Bool) {m n : Kernel S A}
      → (b ≡ true → Triple before m after)
      → (b ≡ false → Triple before n after)
      → Triple before (choose b m n) after
  unfolding choose
  Triple-choose true p q = p refl
  Triple-choose false p q = q refl

  pub Triple-found :
      {B : Type 0} (o : Option B) {m : Kernel S A} {f : B → Kernel S A}
      → (o ≡ none → Triple before m after)
      → ((b : B) → o ≡ some b → Triple before (f b) after)
      → Triple before (when_found o m f) after
  unfolding when_found
  Triple-found none p q = p refl
  Triple-found (some b) p q = q b refl

  pub Triple-fact :
      {fact : Type 0} {m : Kernel S A}
      → (fact → Triple before m after)
      → Triple (λ s. before s × fact) m after
  Triple-fact p = record { at = λ s (h, f). (p f).at s h }

  pub Triple-since :
      {known : S → Type 0} {m : Kernel S A}
      → ((s : S) → known s → before s)
      → Triple before m after
      → Triple known m after
  Triple-since f p = record { at = λ s h. p.at s (f s h) }

  pub Triple-so :
      {goal : A → S → Type 0} {m : Kernel S A}
      → ((a : A) (s : S) → after a s → goal a s)
      → Triple before m after
      → Triple before m goal
  Triple-so {m = m} f p = record { at = λ s h. weaker (m s) f (p.at s h) }

module _ {S A : Type 0} where
  pub Triple-pure : {after : A → S → Type 0} (a : A) → Triple (after a) (pure a) after
  unfolding pure Ends
  Triple-pure a = record { at = λ s h. h }

  pub Triple-gets :
      {before : S → Type 0} (f : S → A) → Triple before (gets f) (λ a s. before s × (f s ≡ a))
  unfolding gets Ends
  Triple-gets f = record { at = λ s h. (h, refl) }

pub Triple-asleep :
    {A : Type 0} {before : Inodes → Type 0} {after : A → Inodes → Type 0}
    → Triple before wait_for_ever after
unfolding wait_for_ever Ends
Triple-asleep = record { at = λ s h. tt }
