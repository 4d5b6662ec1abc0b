-- ===== src/Fs/Calls/Laws.antt =====
-- What the table of inodes, the buffers and the directories promise about the uses.
use linux_0_11_read.Prelude.{ℕ, ◌+◌, ◌≡◌, List, [], ◌∷◌, Option, none, some, arith, Kernel}
use linux_0_11_read.Fs.Calls.Action.{pure, ◌>>◌}
use linux_0_11_read.Fs.Calls.Interface.{Node, Entry, Token, inode, of_buffer, Files}
use linux_0_11_read.Fs.Calls.Moves.{
  Scope, Moves-bind, Moves-pure, held, with_inode, with_buffer, with_entry, Moves, Moves-beside,
}

-- `brelse` and `iput` stop the machine when the use count is 0; of a run that stops, nothing is said.
pub record Laws {S : Type 0} (ops : Files S) (scope : Scope) : Type 0 where
  pub set_node : (i : ℕ) (n : Node) → Moves ops scope [] (ops.set_node i n) (λ r. [])
  pub hold : (i : ℕ) → Moves ops scope [] (ops.hold i) (λ r. inode i ∷ [])
  pub iget : (dev nr : ℕ) → Moves ops scope [] (ops.iget dev nr) (λ r. with_inode r [])
  pub iput : (i : ℕ) → Moves ops scope (inode i ∷ []) (ops.iput i) (λ r. [])
  pub new_inode : (dev : ℕ) → Moves ops scope [] (ops.new_inode dev) (λ r. with_inode r [])
  pub new_block : (dev : ℕ) → Moves ops scope [] (ops.new_block dev) (λ r. [])
  pub free_block : (dev nr : ℕ) → Moves ops scope [] (ops.free_block dev nr) (λ r. [])
  pub truncate : (i : ℕ) → Moves ops scope [] (ops.truncate i) (λ r. [])
  pub bmap : (i b : ℕ) → Moves ops scope [] (ops.bmap i b) (λ r. [])
  pub bread : (dev nr : ℕ) → Moves ops scope [] (ops.bread dev nr) (λ r. with_buffer r [])
  pub brelse : (b : ℕ) → Moves ops scope (of_buffer b ∷ []) (ops.brelse b) (λ r. [])
  pub find_entry :
      (i : ℕ) (name : List ℕ)
      → Moves ops scope
          (inode i ∷ [])
          (ops.find_entry i name)
          (λ r. with_entry r.1 (inode r.0 ∷ []))
  pub add_entry :
      (i : ℕ) (name : List ℕ) → Moves ops scope [] (ops.add_entry i name) (λ r. with_entry r [])
  pub set_number : (e : Entry) (nr : ℕ) → Moves ops scope [] (ops.set_number e nr) (λ r. [])
  pub set_name : (e : Entry) (name : List ℕ) → Moves ops scope [] (ops.set_name e name) (λ r. [])

held-with_inode :
    (x : Token) (o : Option ℕ) (l : List Token)
    → held x (with_inode o l) ≡ held x (with_inode o []) + held x l
unfolding with_inode held
held-with_inode x none l = omega arith
held-with_inode x (some i) l = omega arith

held-with_buffer :
    (x : Token) (o : Option ℕ) (l : List Token)
    → held x (with_buffer o l) ≡ held x (with_buffer o []) + held x l
unfolding with_buffer held
held-with_buffer x none l = omega arith
held-with_buffer x (some i) l = omega arith

held-with_entry :
    (x : Token) (o : Option Entry) (l : List Token)
    → held x (with_entry o l) ≡ held x (with_entry o []) + held x l
unfolding with_entry held
held-with_entry x none l = omega arith
held-with_entry x (some i) l = omega arith

module _ {S : Type 0} {ops : Files S} {scope : Scope} ⦃law : Laws ops scope⦄ where
  -- An action that holds and gives back nothing.
  pub neutral :
      {A : Type 0} {m : Kernel S A} {l : List Token}
      → Moves ops scope [] m (λ a. [])
      → Moves ops scope l m (λ a. l)
  unfolding held
  neutral {l = l} p = Moves-beside l p (λ x. omega arith) (λ a x. omega arith)

  pub Moves-hold : {i : ℕ} {l : List Token} → Moves ops scope l (ops.hold i) (λ a. inode i ∷ l)
  unfolding held
  Moves-hold {i = i} {l = l} = Moves-beside l (law.hold i) (λ x. omega arith) (λ a x. omega arith)

  pub Moves-iget :
      (dev nr : ℕ) {l : List Token} → Moves ops scope l (ops.iget dev nr) (λ r. with_inode r l)
  unfolding held
  Moves-iget dev nr {l = l} =
      Moves-beside l (law.iget dev nr) (λ x. omega arith) (λ r x. held-with_inode x r l)

  pub Moves-new_inode :
      (dev : ℕ) {l : List Token} → Moves ops scope l (ops.new_inode dev) (λ r. with_inode r l)
  unfolding held
  Moves-new_inode dev {l = l} =
      Moves-beside l (law.new_inode dev) (λ x. omega arith) (λ r x. held-with_inode x r l)

  pub Moves-bread :
      (dev nr : ℕ) {l : List Token} → Moves ops scope l (ops.bread dev nr) (λ r. with_buffer r l)
  unfolding held
  Moves-bread dev nr {l = l} =
      Moves-beside l (law.bread dev nr) (λ x. omega arith) (λ r x. held-with_buffer x r l)

  pub Moves-iput : {i : ℕ} {l : List Token} → Moves ops scope (inode i ∷ l) (ops.iput i) (λ r. l)
  unfolding held
  Moves-iput {i = i} {l = l} = Moves-beside l (law.iput i) (λ x. omega arith) (λ a x. omega arith)

  pub Moves-iput_second :
      {i : ℕ} {a : Token} {l : List Token}
      → Moves ops scope (a ∷ inode i ∷ l) (ops.iput i) (λ r. a ∷ l)
  unfolding held
  Moves-iput_second {i = i} {a = a} {l = l} =
      Moves-beside (a ∷ l) (law.iput i) (λ x. omega arith) (λ r x. omega arith)

  pub Moves-iput_third :
      {i : ℕ} {a b : Token} {l : List Token}
      → Moves ops scope (a ∷ b ∷ inode i ∷ l) (ops.iput i) (λ r. a ∷ b ∷ l)
  unfolding held
  Moves-iput_third {i = i} {a = a} {b = b} {l = l} =
      Moves-beside (a ∷ b ∷ l) (law.iput i) (λ x. omega arith) (λ r x. omega arith)

  pub Moves-brelse :
      {i : ℕ} {l : List Token} → Moves ops scope (of_buffer i ∷ l) (ops.brelse i) (λ r. l)
  unfolding held
  Moves-brelse {i = i} {l = l} =
      Moves-beside l (law.brelse i) (λ x. omega arith) (λ a x. omega arith)

  pub Moves-brelse_second :
      {i : ℕ} {a : Token} {l : List Token}
      → Moves ops scope (a ∷ of_buffer i ∷ l) (ops.brelse i) (λ r. a ∷ l)
  unfolding held
  Moves-brelse_second {i = i} {a = a} {l = l} =
      Moves-beside (a ∷ l) (law.brelse i) (λ x. omega arith) (λ r x. omega arith)

  pub Moves-find_entry :
      {i : ℕ} (name : List ℕ) {l : List Token}
      → Moves ops scope (inode i ∷ l) (ops.find_entry i name) (λ r. with_entry r.1 (inode r.0 ∷ l))
  unfolding held
  Moves-find_entry {i = i} name {l = l} =
      Moves-beside l (law.find_entry i name) (λ x. omega arith)
        (λ (d, r) x.
          omega (arith, held-with_entry x r (inode d ∷ l), held-with_entry x r (inode d ∷ [])))

  pub Moves-add_entry :
      (i : ℕ) (name : List ℕ) {l : List Token}
      → Moves ops scope l (ops.add_entry i name) (λ r. with_entry r l)
  unfolding held
  Moves-add_entry i name {l = l} =
      Moves-beside l (law.add_entry i name) (λ x. omega arith) (λ r x. held-with_entry x r l)

  -- The two ways to give an inode back and return.
  pub Moves-put :
      {A : Type 0} {after : A → List Token} {i : ℕ} (a : A)
      → Moves ops scope (inode i ∷ after a) (ops.iput i >> pure a) after
  Moves-put a = Moves-bind Moves-iput λ u. Moves-pure a

  pub Moves-put_second :
      {A : Type 0} {after : A → List Token} {i j : ℕ} (a : A)
      → Moves ops scope (inode j ∷ inode i ∷ after a) (ops.iput i >> (ops.iput j >> pure a)) after
  Moves-put_second a = Moves-bind Moves-iput_second λ u. Moves-put a
