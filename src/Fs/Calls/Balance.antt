-- ===== src/Fs/Calls/Balance.antt =====
-- Every path through the calls gives back the inodes and the buffers that it has taken.
use linux_0_11_read.Prelude.{
  ℕ, List, [], ◌∷◌, Option, none, some, ◌||◌, ◌==◌, Bool-cases, inl, inr, Kernel,
}
use linux_0_11_read.Fs.Calls.Action.{gets, stop_machine, ◌>>=◌, choose, when_found}
use linux_0_11_read.Fs.Calls.Interface.{Node, Token, inode, Files}
use linux_0_11_read.Fs.Calls.Paths.{is_lost, update, walk, get_dir, dir_namei, namei, is_blank}
use linux_0_11_read.Fs.Calls.Moves.{
  Scope, Balances, with_inode, Moves, Moves-bind, Moves-pure, Moves-gets, Moves-choose,
  Moves-found_inode, Moves-found_entry,
}
use linux_0_11_read.Fs.Calls.Laws.{
  Laws, neutral, Moves-hold, Moves-iget, Moves-iput, Moves-brelse, Moves-find_entry,
}

module _ {S : Type 0} {ops : Files S} {scope : Scope} ⦃law : Laws ops scope⦄ (now : ℕ) where
  pub Moves-update :
      (i : ℕ) (change : Node → Node) {l : List Token}
      → Moves ops scope l (update ops now i change) (λ r. l)
  unfolding update
  Moves-update i change = Moves-bind (Moves-gets _) λ n. neutral (law.set_node i (change n))

  Moves-walk :
      (names : List (List ℕ)) (i : ℕ) {l : List Token}
      → Moves ops scope (inode i ∷ l) (walk ops now names i) (λ r. with_inode r l)
  unfolding walk with_inode
  Moves-walk [] i =
      Moves-bind (Moves-gets _)
        λ ok. Moves-choose ok (Moves-pure _) (Moves-bind Moves-iput λ u. (Moves-pure _))
  Moves-walk (name ∷ names) i = Moves-bind (Moves-gets _) λ ok.
      Moves-choose ok
        (Moves-bind (Moves-find_entry _) λ (dir, found).
          Moves-found_entry found (Moves-bind Moves-iput λ u. (Moves-pure _)) λ entry.
            Moves-bind (Moves-gets _) λ nr. Moves-bind (Moves-gets _) λ dev.
              Moves-bind Moves-brelse λ u. Moves-bind Moves-iput λ w.
                Moves-bind (Moves-iget _ _)
                  λ next. Moves-found_inode next (Moves-pure _) λ j. Moves-walk names j)
        (Moves-bind Moves-iput λ u. (Moves-pure _))

  -- What runs once the root and the working directory are known to be there.
  Moves-placed :
      {A : Type 0} {l : List Token} {after : A → List Token} (f : Option ℕ → Option ℕ → Kernel S A)
      → ((i j : ℕ) → Moves ops scope l (f (some i) (some j)) after)
      → Moves ops scope l
          (gets (λ s. is_lost ops now (ops.root s) s || is_lost ops now (ops.pwd s) s) >>= λ lost.
            gets ops.root >>= λ top. gets ops.pwd >>= λ here. choose lost stop_machine (f top here))
          after
  unfolding gets ◌>>=◌ choose stop_machine Balances
  Moves-placed {l = l} {after = after} f p = record {
    at = λ s. at_place s (ops.root s) (ops.pwd s);
  }
    where
      at_place :
          (s : S) (r w : Option ℕ)
          → Balances ops scope l after s
              (choose (is_lost ops now r s || is_lost ops now w s) stop_machine (f r w) s)
      at_place s none w = tt
      at_place s (some i) none = elim (Bool-cases (ops.uses s (inode i) == 0)) [
        | inl h ↦ rw h tt
        | inr h ↦ rw h tt
      ]
      at_place s (some i) (some j) = elim (Bool-cases (ops.uses s (inode i) == 0)) [
        | inl h ↦ rw h tt
        | inr h ↦ rw h (elim (Bool-cases (ops.uses s (inode j) == 0)) [
          | inl k ↦ rw k tt
          | inr k ↦ rw k ((p i j).at s)
        ])
      ]

  Moves-get_dir :
      (path : List ℕ) {l : List Token}
      → Moves ops scope l (get_dir ops now path) (λ r. with_inode r l)
  unfolding get_dir when_found with_inode
  Moves-get_dir [] = Moves-placed _ (λ i j. Moves-pure none)
  Moves-get_dir (c ∷ rest) = Moves-placed _ (λ i j.
      Moves-choose (c == b'/') (Moves-bind Moves-hold λ u. Moves-walk _ i)
        (Moves-bind Moves-hold λ u. Moves-walk _ j))

  pub Moves-dir_namei :
      (path : List ℕ) {l : List Token}
      → Moves ops scope l (dir_namei ops now path) (λ r. with_inode r.0 l)
  unfolding dir_namei
  Moves-dir_namei path = Moves-bind (Moves-get_dir path) λ dir. Moves-pure _

  pub Moves-namei :
      (path : List ℕ) {l : List Token}
      → Moves ops scope l (namei ops now path) (λ r. with_inode r l)
  unfolding namei with_inode
  Moves-namei path = Moves-bind (Moves-dir_namei path) λ (at, name).
      Moves-found_inode at (Moves-pure _) λ dir0. Moves-choose (is_blank name) (Moves-pure _) (
        Moves-bind (Moves-find_entry _) λ (dir, found).
          Moves-found_entry found (Moves-bind Moves-iput λ u. Moves-pure _) λ entry.
            Moves-bind (Moves-gets _) λ nr. Moves-bind (Moves-gets _) λ dev.
              Moves-bind Moves-brelse λ u. Moves-bind Moves-iput λ w.
                Moves-bind (Moves-iget _ _) λ got.
                  Moves-found_inode got (Moves-pure _)
                    λ i. Moves-bind (Moves-update _ _) λ v. Moves-pure _)
