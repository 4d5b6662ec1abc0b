-- ===== src/Fs/Calls/Moves.antt =====
-- What an action takes of the inodes and buffers that are held, and what it leaves: the rules.
use linux_0_11_read.Prelude.{
  ℕ, ◌+◌, ◌≡◌, refl, List, [], ◌∷◌, Option, none, some, Bool, true, false, ◌==◌, if◌then◌else◌,
  arith, Kernel, Outcome, done, halted,
}
use linux_0_11_read.Fs.Calls.Action.{pure, gets, ◌>>=◌, choose, when_found, continue}
use linux_0_11_read.Fs.Calls.Interface.{Entry, Token, inode, of_buffer, Files}

abbrev pub is_same : Token → Token → Bool
is_same (inode i) (inode j) = i == j
is_same (of_buffer i) (of_buffer j) = i == j
is_same _ _ = false

-- How often a token is in a list.
unfoldable pub held : Token → List Token → ℕ
held x [] = 0
held x (y ∷ ys) = (if is_same x y then 1 else 0) + held x ys

-- A pointer that may be null, with what it holds.
unfoldable pub with_inode : Option ℕ → List Token → List Token
with_inode none held = held
with_inode (some i) held = inode i ∷ held

unfoldable pub with_buffer : Option ℕ → List Token → List Token
with_buffer none held = held
with_buffer (some b) held = of_buffer b ∷ held

unfoldable pub with_entry : Option Entry → List Token → List Token
with_entry none held = held
with_entry (some e) held = of_buffer e.buffer ∷ held

-- What is counted.
pub record Scope : Type 0 where
  pub counts : Token → Bool

module _ {S : Type 0} (ops : Files S) (scope : Scope) where
  pub record Moved {A : Type 0} (before : List Token) (after : A → List Token) (s : S) (a : A)
      (t : S) : Type 0 where
    pub uses :
        (x : Token)
        → scope.counts x ≡ true
        → ops.uses t x + held x before ≡ ops.uses s x + held x (after a)

  -- A run that returns changes the uses by the difference of the two lists.
  unfoldable pub Balances : {A : Type 0} → List Token → (A → List Token) → S → Outcome S A → Type 0
  Balances before after s (halted h t) = Unit {0}
  Balances before after s (done a t) = Moved before after s a t

  pub record Moves {A : Type 0} (before : List Token) (m : Kernel S A) (after : A → List Token)
      : Type 0 where
    pub at : (s : S) → Balances before after s (m s)

  continue-Balances :
      {A B : Type 0} (before : List Token) (mid : A → List Token) (after : B → List Token) (s : S)
      (o : Outcome S A) (f : A → Kernel S B)
      → Balances before mid s o
      → ((a : A) → Moves (mid a) (f a) after)
      → Balances before after s (continue o f)
  unfolding Balances
  continue-Balances {B = B} before mid after s (halted h t) f first rest = tt
  continue-Balances {B = B} before mid after s (done a t) f first rest =
      join (f a t) ((rest a).at t)
    where
      join : (o : Outcome S B) → Balances (mid a) after t o → Balances before after s o
      join (halted h u) p = tt
      join (done b u) p = record { uses = λ x c. omega (arith, first.uses x c, p.uses x c) }

  moved :
      {A : Type 0} (out before : List Token) (inn after : A → List Token) (rest : List Token)
      (s : S) (o : Outcome S A)
      → ((x : Token) → held x before ≡ held x out + held x rest)
      → ((a : A) (x : Token) → held x (after a) ≡ held x (inn a) + held x rest)
      → Balances out inn s o
      → Balances before after s o
  unfolding Balances
  moved out before inn after rest s (halted h t) e f p = tt
  moved out before inn after rest s (done a t) e f p = record {
    uses = λ x c. omega (arith, p.uses x c, e x, f a x);
  }

module _ {S : Type 0} {ops : Files S} {scope : Scope} where
  pub Moves-bind :
      {A B : Type 0} {before : List Token} {mid : A → List Token} {after : B → List Token}
      {m : Kernel S A} {f : A → Kernel S B}
      → Moves ops scope before m mid
      → ((a : A) → Moves ops scope (mid a) (f a) after)
      → Moves ops scope before (m >>= f) after
  unfolding ◌>>=◌
  Moves-bind {before = before} {mid = mid} {after = after} {m = m} {f = f} p q = record {
    at = λ s. continue-Balances ops scope before mid after s (m s) f (p.at s) q;
  }

  pub Moves-pure :
      {A : Type 0} {after : A → List Token} (a : A) → Moves ops scope (after a) (pure a) after
  unfolding pure Balances
  Moves-pure a = record { at = λ s. record { uses = λ x c. refl } }

  pub Moves-skip : {l : List Token} → Moves ops scope l (pure (tt {0})) (λ r. l)
  unfolding pure Balances
  Moves-skip = record { at = λ s. record { uses = λ x c. refl } }

  pub Moves-gets : {A : Type 0} {l : List Token} (f : S → A) → Moves ops scope l (gets f) (λ a. l)
  unfolding gets Balances
  Moves-gets f = record { at = λ s. record { uses = λ x c. refl } }

  pub Moves-choose :
      {A : Type 0} {before : List Token} {after : A → List Token} (b : Bool) {m n : Kernel S A}
      → Moves ops scope before m after
      → Moves ops scope before n after
      → Moves ops scope before (choose b m n) after
  unfolding choose
  Moves-choose true p q = p
  Moves-choose false p q = q

  pub Moves-found_inode :
      {B : Type 0} {before : List Token} {after : B → List Token} (o : Option ℕ) {m : Kernel S B}
      {f : ℕ → Kernel S B}
      → Moves ops scope before m after
      → ((i : ℕ) → Moves ops scope (inode i ∷ before) (f i) after)
      → Moves ops scope (with_inode o before) (when_found o m f) after
  unfolding when_found with_inode
  Moves-found_inode none p q = p
  Moves-found_inode (some i) p q = q i

  pub Moves-found_buffer :
      {B : Type 0} {before : List Token} {after : B → List Token} (o : Option ℕ) {m : Kernel S B}
      {f : ℕ → Kernel S B}
      → Moves ops scope before m after
      → ((i : ℕ) → Moves ops scope (of_buffer i ∷ before) (f i) after)
      → Moves ops scope (with_buffer o before) (when_found o m f) after
  unfolding when_found with_buffer
  Moves-found_buffer none p q = p
  Moves-found_buffer (some i) p q = q i

  pub Moves-found_entry :
      {B : Type 0} {before : List Token} {after : B → List Token} (o : Option Entry)
      {m : Kernel S B} {f : Entry → Kernel S B}
      → Moves ops scope before m after
      → ((e : Entry) → Moves ops scope (of_buffer e.buffer ∷ before) (f e) after)
      → Moves ops scope (with_entry o before) (when_found o m f) after
  unfolding when_found with_entry
  Moves-found_entry none p q = p
  Moves-found_entry (some e) p q = q e

  -- A test for null of what is not yet held.
  pub Moves-found :
      {A B : Type 0} {before : List Token} {after : B → List Token} (o : Option A) {m : Kernel S B}
      {f : A → Kernel S B}
      → Moves ops scope before m after
      → ((a : A) → Moves ops scope before (f a) after)
      → Moves ops scope before (when_found o m f) after
  unfolding when_found
  Moves-found none p q = p
  Moves-found (some a) p q = q a

  -- What is held besides stays so, and the order does not count.
  pub Moves-beside :
      {A : Type 0} {out before : List Token} {inn after : A → List Token} {m : Kernel S A}
      (rest : List Token)
      → Moves ops scope out m inn
      → ((x : Token) → held x before ≡ held x out + held x rest)
      → ((a : A) (x : Token) → held x (after a) ≡ held x (inn a) + held x rest)
      → Moves ops scope before m after
  Moves-beside {out = out} {before = before} {inn = inn} {after = after} {m = m} rest p e f =
      record { at = λ s. moved ops scope out before inn after rest s (m s) e f (p.at s) }
