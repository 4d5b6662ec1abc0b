-- ===== src/Fs/Calls/Linking.antt =====
-- sys_unlink and sys_link give back what they take, and sys_rmdir the inodes.
use linux_0_11_read.Prelude.{ℕ, List, [], ◌∷◌, Kernel}
use linux_0_11_read.Fs.Calls.Interface.{Entry, inode, of_buffer, Files}
use linux_0_11_read.Fs.Calls.Links.{give_up, with_old, remove_link, sys_unlink, add_link, sys_link}
use linux_0_11_read.Fs.Calls.Moves.{
  Scope, Moves, Moves-bind, Moves-pure, Moves-gets, Moves-choose, Moves-found_inode,
  Moves-found_entry,
}
use linux_0_11_read.Fs.Calls.Laws.{
  Laws, neutral, Moves-iget, Moves-iput, Moves-iput_second, Moves-iput_third, Moves-put,
  Moves-put_second, Moves-brelse, Moves-brelse_second, Moves-find_entry, Moves-add_entry,
}
use linux_0_11_read.Fs.Calls.Balance.{Moves-update, Moves-dir_namei, Moves-namei}
use linux_0_11_read.Fs.Calls.Opening.{Moves-put_number, Moves-in_dir}

module _ {S : Type 0} {ops : Files S} {scope : Scope} ⦃law : Laws ops scope⦄ (now : ℕ) where
  -- The two orders in which a failing call gives the inodes back.
  pub Moves-give_up :
      (dir i b r : ℕ)
      → Moves ops scope
          (inode i ∷ of_buffer b ∷ inode dir ∷ [])
          (give_up ops now dir i b r)
          (λ r. [])
  unfolding give_up
  Moves-give_up dir i b r =
      Moves-bind Moves-iput_third
        λ u. Moves-bind Moves-iput λ v. Moves-bind Moves-brelse λ w. Moves-pure _

  pub Moves-give_up_first :
      (dir i b r : ℕ)
      → Moves ops scope
          (inode i ∷ of_buffer b ∷ inode dir ∷ [])
          (give_up ops now i dir b r)
          (λ r. [])
  unfolding give_up
  Moves-give_up_first dir i b r =
      Moves-bind Moves-iput
        λ u. Moves-bind Moves-iput_second λ v. Moves-bind Moves-brelse λ w. Moves-pure _

  pub Moves-with_old :
      (missing : ℕ) (rest : ℕ → Entry → ℕ → Kernel S ℕ)
      → ((dir : ℕ) (e : Entry) (i : ℕ)
          → Moves ops scope
              (inode i ∷ of_buffer e.buffer ∷ inode dir ∷ [])
              (rest dir e i)
              (λ r. []))
      → (dir0 : ℕ) (name : List ℕ)
      → Moves ops scope (inode dir0 ∷ []) (with_old ops now missing rest dir0 name) (λ r. [])
  unfolding with_old
  Moves-with_old missing rest p dir0 name = Moves-bind (Moves-find_entry name) λ (dir, found).
      Moves-found_entry found (Moves-put _) λ entry. Moves-bind (Moves-gets _) λ dev.
        Moves-bind (Moves-gets _) λ nr. Moves-bind (Moves-iget _ _) λ got.
          Moves-found_inode got
            (Moves-bind Moves-iput_second λ u. Moves-bind Moves-brelse λ v. Moves-pure _)
            λ i. p dir entry i

  Moves-remove_link :
      (dir : ℕ) (e : Entry) (i : ℕ)
      → Moves ops scope
          (inode i ∷ of_buffer e.buffer ∷ inode dir ∷ [])
          (remove_link ops now dir e i)
          (λ r. [])
  unfolding remove_link
  Moves-remove_link dir e i = Moves-bind (Moves-gets _) λ me. Moves-bind (Moves-gets _) λ super.
      Moves-bind (Moves-gets _) λ d. Moves-bind (Moves-gets _) λ n.
        Moves-choose _ (Moves-give_up dir i e.buffer _) (
          Moves-choose _ (Moves-give_up_first dir i e.buffer _) (
            Moves-bind (neutral (law.set_number e 0)) λ a.
              Moves-bind Moves-brelse_second
                λ b. Moves-bind (Moves-update now i _) λ c. Moves-bind Moves-iput λ f. Moves-put _))

  pub Moves-sys_unlink : (path : List ℕ) → Moves ops scope [] (sys_unlink ops now path) (λ r. [])
  unfolding sys_unlink
  Moves-sys_unlink path = Moves-in_dir now path _ (Moves-with_old _ _ Moves-remove_link)

  Moves-add_link :
      (old dir0 : ℕ) (name : List ℕ)
      → Moves ops scope (inode dir0 ∷ inode old ∷ []) (add_link ops now old dir0 name) (λ r. [])
  unfolding add_link
  Moves-add_link old dir0 name = Moves-bind (Moves-find_entry name) λ (dir, there).
      Moves-found_entry there
        (Moves-bind (Moves-add_entry dir name) λ found.
          Moves-found_entry found (Moves-bind Moves-iput λ u. Moves-put _) λ entry.
            Moves-bind (Moves-put_number now entry old) λ u.
              Moves-bind Moves-brelse λ v.
                Moves-bind Moves-iput λ w. Moves-bind (Moves-update now old _) λ x. Moves-put _)
        λ entry. Moves-bind Moves-brelse λ u. Moves-bind Moves-iput λ v. Moves-put _

  pub Moves-sys_link :
      (oldname newname : List ℕ) → Moves ops scope [] (sys_link ops now oldname newname) (λ r. [])
  unfolding sys_link
  Moves-sys_link oldname newname = Moves-bind (Moves-namei now oldname) λ got.
      Moves-found_inode got (Moves-pure _) λ old. Moves-bind (Moves-gets _) λ n.
        Moves-choose _ (Moves-put _) (
          Moves-bind (Moves-dir_namei now newname) λ (at, name).
            Moves-found_inode at (Moves-put _) λ dir. Moves-bind (Moves-gets _) λ dev.
              Moves-bind (Moves-gets _) λ may. Moves-bind (Moves-gets _) λ old_dev.
                Moves-choose _ (Moves-put_second _) (
                  Moves-choose _ (Moves-bind Moves-iput λ u. Moves-put _) (
                    Moves-choose _ (Moves-bind Moves-iput λ u. Moves-put _)
                      (Moves-add_link old dir name))))
