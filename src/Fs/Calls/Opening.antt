-- ===== src/Fs/Calls/Opening.antt =====
-- open_namei, sys_mknod and sys_mkdir give back what they take.
use linux_0_11_read.Prelude.{ℕ, List, [], ◌∷◌, Kernel}
use linux_0_11_read.Fs.Calls.Interface.{Entry, Token, inode, of_buffer, Files}
use linux_0_11_read.Fs.Calls.Open.{
  put_number, inode_in, create, open_entry, open_namei, in_dir, with_new_inode, make_node,
  sys_mknod, first_block, drop_block, fill_dir, make_dir, sys_mkdir,
}
use linux_0_11_read.Fs.Calls.Moves.{
  Scope, with_inode, Moves, Moves-bind, Moves-pure, Moves-skip, Moves-gets, Moves-choose,
  Moves-found_inode, Moves-found_buffer, Moves-found_entry,
}
use linux_0_11_read.Fs.Calls.Laws.{
  Laws, neutral, Moves-iget, Moves-new_inode, Moves-bread, Moves-iput, Moves-iput_second,
  Moves-iput_third, Moves-put, Moves-brelse, Moves-find_entry, Moves-add_entry,
}
use linux_0_11_read.Fs.Calls.Balance.{Moves-update, Moves-dir_namei}

module _ {S : Type 0} {ops : Files S} {scope : Scope} ⦃law : Laws ops scope⦄ (now : ℕ) where
  pub Moves-put_number :
      (e : Entry) (i : ℕ) {l : List Token} → Moves ops scope l (put_number ops now e i) (λ r. l)
  unfolding put_number
  Moves-put_number e i = Moves-bind (Moves-gets _) λ nr. neutral (law.set_number e nr)

  Moves-inode_in :
      (dir : ℕ) {l : List Token} → Moves ops scope l (inode_in ops now dir) (λ r. with_inode r l)
  unfolding inode_in
  Moves-inode_in dir = Moves-bind (Moves-gets _) λ dev. Moves-new_inode dev

  Moves-create :
      (dir : ℕ) (name : List ℕ) (flag mode : ℕ) {l : List Token}
      → Moves ops scope (inode dir ∷ l) (create ops now dir name flag mode) (λ r. with_inode r.1 l)
  unfolding create with_inode
  Moves-create dir name flag mode = Moves-bind (Moves-gets _) λ may. Moves-choose _ (Moves-put _) (
      Moves-choose _ (Moves-put _) (
        Moves-bind (Moves-inode_in dir) λ new. Moves-found_inode new (Moves-put _) λ i.
          Moves-bind (Moves-gets _) λ me. Moves-bind (Moves-update now i _) λ u.
            Moves-bind (Moves-add_entry dir name) λ found.
              Moves-found_entry found
                (Moves-bind (Moves-update now i _) λ v. Moves-bind Moves-iput λ w. Moves-put _)
                λ entry.
                  Moves-bind (Moves-put_number entry i) λ v.
                    Moves-bind Moves-brelse λ w. Moves-bind Moves-iput_second λ x. Moves-pure _))

  Moves-open_entry :
      (dir : ℕ) (entry : Entry) (flag : ℕ) {l : List Token}
      → Moves ops scope
          (of_buffer entry.buffer ∷ inode dir ∷ l)
          (open_entry ops now dir entry flag)
          (λ r. with_inode r.1 l)
  unfolding open_entry with_inode
  Moves-open_entry dir entry flag = Moves-bind (Moves-gets _) λ nr. Moves-bind (Moves-gets _) λ dev.
      Moves-bind Moves-brelse λ u. Moves-bind Moves-iput λ v. Moves-choose _ (Moves-pure _) (
        Moves-bind (Moves-iget _ _) λ got. Moves-found_inode got (Moves-pure _) λ i.
          Moves-bind (Moves-gets _) λ bad. Moves-choose bad (Moves-put _) (
            Moves-bind (Moves-update now i _) λ w.
              Moves-bind (Moves-choose _ (neutral (law.truncate i)) Moves-skip) λ x. Moves-pure _))

  pub Moves-open_namei :
      (path : List ℕ) (flag mode : ℕ) {l : List Token}
      → Moves ops scope l (open_namei ops now path flag mode) (λ r. with_inode r.1 l)
  unfolding open_namei with_inode
  Moves-open_namei path flag mode = Moves-bind (Moves-gets _) λ mask.
      Moves-bind (Moves-dir_namei now path) λ (at, name).
        Moves-found_inode at (Moves-pure _) λ dir0.
          Moves-choose _ (Moves-choose _ (Moves-pure _) (Moves-put _)) (
            Moves-bind (Moves-find_entry name) λ (dir, found).
              Moves-found_entry found (Moves-create dir name _ _)
                λ entry. Moves-open_entry dir entry _)

  pub Moves-in_dir :
      (path : List ℕ) (rest : ℕ → List ℕ → Kernel S ℕ)
      → ((dir : ℕ) (name : List ℕ) → Moves ops scope (inode dir ∷ []) (rest dir name) (λ r. []))
      → Moves ops scope [] (in_dir ops now path rest) (λ r. [])
  unfolding in_dir
  Moves-in_dir path rest p = Moves-bind (Moves-dir_namei now path) λ (at, name).
      Moves-found_inode at (Moves-pure _) λ dir.
        Moves-bind (Moves-gets _)
          λ may. Moves-choose _ (Moves-put _) (Moves-choose _ (Moves-put _) (p dir name))

  Moves-with_new_inode :
      (rest : ℕ → List ℕ → ℕ → Kernel S ℕ)
      → ((dir : ℕ) (name : List ℕ) (i : ℕ)
          → Moves ops scope (inode i ∷ inode dir ∷ []) (rest dir name i) (λ r. []))
      → (dir0 : ℕ) (name : List ℕ)
      → Moves ops scope (inode dir0 ∷ []) (with_new_inode ops now rest dir0 name) (λ r. [])
  unfolding with_new_inode
  Moves-with_new_inode rest p dir0 name = Moves-bind (Moves-find_entry name) λ (dir, there).
      Moves-found_entry there
        (Moves-bind (Moves-inode_in dir)
          λ new. Moves-found_inode new (Moves-put _) λ i. p dir name i)
        λ entry. Moves-bind Moves-brelse λ u. Moves-put _

  Moves-make_node :
      (mode dev dir : ℕ) (name : List ℕ) (i : ℕ)
      → Moves ops scope (inode i ∷ inode dir ∷ []) (make_node ops now mode dev dir name i) (λ r. [])
  unfolding make_node
  Moves-make_node mode dev dir name i = Moves-bind (Moves-update now i _) λ u.
      Moves-bind (Moves-add_entry dir name) λ found.
        Moves-found_entry found
          (Moves-bind Moves-iput_second λ v. Moves-bind (Moves-update now i _) λ w. Moves-put _)
          λ entry. Moves-bind (Moves-put_number entry i) λ v.
            Moves-bind Moves-iput_third
              λ w. Moves-bind Moves-iput_second λ x. Moves-bind Moves-brelse λ y. Moves-pure _

  pub Moves-sys_mknod :
      (path : List ℕ) (mode dev : ℕ)
      → Moves ops scope [] (sys_mknod ops now path mode dev) (λ r. [])
  unfolding sys_mknod
  Moves-sys_mknod path mode dev = Moves-bind (Moves-gets _) λ me.
      Moves-choose me (Moves-in_dir path _ (Moves-with_new_inode _ (Moves-make_node mode dev)))
        (Moves-pure _)

  Moves-drop_block : (i : ℕ) {l : List Token} → Moves ops scope l (drop_block ops now i) (λ r. l)
  unfolding drop_block
  Moves-drop_block i = Moves-bind (Moves-gets _) λ n. neutral (law.free_block _ _)

  Moves-first_block :
      (b i dir : ℕ) {l : List Token}
      → Moves ops scope (of_buffer b ∷ l) (first_block ops now b i dir) (λ r. l)
  unfolding first_block
  Moves-first_block b i dir = Moves-bind (Moves-put_number _ i) λ u.
      Moves-bind (neutral (law.set_name _ _)) λ v. Moves-bind (Moves-put_number _ dir) λ w.
        Moves-bind (neutral (law.set_name _ _))
          λ x. Moves-bind (Moves-update now i _) λ y. Moves-brelse

  Moves-fill_dir :
      (mode dir : ℕ) (name : List ℕ) (i b : ℕ)
      → Moves ops scope
          (of_buffer b ∷ inode i ∷ inode dir ∷ [])
          (fill_dir ops now mode dir name i b)
          (λ r. [])
  unfolding fill_dir
  Moves-fill_dir mode dir name i b = Moves-bind (Moves-first_block b i dir) λ u.
      Moves-bind (Moves-gets _) λ mask. Moves-bind (Moves-update now i _) λ v.
        Moves-bind (Moves-add_entry dir name) λ found.
          Moves-found_entry found
            (Moves-bind Moves-iput_second λ c.
              Moves-bind (Moves-drop_block i)
                λ d. Moves-bind (Moves-update now i _) λ e. Moves-put _)
            λ entry. Moves-bind (Moves-put_number entry i) λ c.
              Moves-bind (Moves-update now dir _) λ d.
                Moves-bind Moves-iput_third
                  λ e. Moves-bind Moves-iput_second λ f. Moves-bind Moves-brelse λ g. Moves-pure _

  Moves-make_dir :
      (mode dir : ℕ) (name : List ℕ) (i : ℕ)
      → Moves ops scope (inode i ∷ inode dir ∷ []) (make_dir ops now mode dir name i) (λ r. [])
  unfolding make_dir
  Moves-make_dir mode dir name i = Moves-bind (Moves-update now i _) λ a.
      Moves-bind (Moves-gets _) λ dev. Moves-bind (neutral (law.new_block dev)) λ nr.
        Moves-bind (Moves-pure _) λ block. Moves-bind (Moves-update now i _) λ b.
          Moves-choose _
            (Moves-bind Moves-iput_second λ c. Moves-bind (Moves-update now i _) λ d. Moves-put _)
            (Moves-bind (Moves-update now i _) λ c. Moves-bind (Moves-bread _ _) λ bh.
              Moves-found_buffer bh
                (Moves-bind Moves-iput_second λ d.
                  Moves-bind (Moves-drop_block i)
                    λ e. Moves-bind (Moves-update now i _) λ f. Moves-put _)
                λ b. Moves-fill_dir mode dir name i b)

  pub Moves-sys_mkdir :
      (path : List ℕ) (mode : ℕ) → Moves ops scope [] (sys_mkdir ops now path mode) (λ r. [])
  unfolding sys_mkdir
  Moves-sys_mkdir path mode = Moves-bind (Moves-gets _) λ me.
      Moves-choose me (Moves-in_dir path _ (Moves-with_new_inode _ (Moves-make_dir mode)))
        (Moves-pure _)
