-- ===== src/Fs/Calls/Links.antt =====
-- fs/namei.c: empty_dir, sys_rmdir, sys_unlink and sys_link.
use linux_0_11_read.Prelude.{
  ℕ, zero, suc, ◌+◌, ◌/◌, ◌%◌, List, [], ◌∷◌, Bool, true, false, not, ◌&&◌, ◌||◌, ◌==◌, ltb, leb,
  if◌then◌else◌, neg32, get_or, Kernel,
}
use linux_0_11_read.Kernel.Process.{eperm}
use linux_0_11_read.Fs.Access.{eacces, enoent}
use linux_0_11_read.Fs.Calls.Action.{pure, gets, ◌>>=◌, ◌>>◌, choose, when_found}
use linux_0_11_read.Fs.Calls.Interface.{Node, Entry, inode, Files}
use linux_0_11_read.Fs.Calls.Paths.{update, dir_namei, namei, is_dir, is_blank}
use linux_0_11_read.Fs.Calls.Open.{eexist, enospc, in_dir, put_number, unlinked, one_link_more}

abbrev pub exdev : ℕ
exdev = neg32 18

abbrev pub enotdir : ℕ
enotdir = neg32 20

abbrev pub enotempty : ℕ
enotempty = neg32 39

-- strcmp, for a string as its characters
unfoldable pub is_text : List ℕ → List ℕ → Bool
is_text [] [] = true
is_text (c ∷ cs) (d ∷ ds) = (c == d) && is_text cs ds
is_text _ _ = false

-- S_ISVTX
abbrev pub is_sticky : ℕ → Bool
is_sticky mode = mode / 512 % 2 == 1

module _ {S : Type 0} (ops : Files S) (now : ℕ) where
  open ops use {
    uses, node, euid, suser, permission, iget, iput, bmap, bread, brelse, find_entry, add_entry,
    number_of, name_of, set_number,
  }

  abbrev pub entry_at : ℕ → ℕ → Entry
  entry_at b k = record { buffer = b; slot = k }

  -- A round of the loop of `empty_dir`, with `nr` and the buffer, and what follows when a block is
  -- missing and when an entry is free.
  abbrev pub empty_round : ℕ → ℕ → ℕ → ℕ → Kernel S Bool → (ℕ → Kernel S Bool) → Kernel S Bool
  empty_round i len nr b skip next = do
    dev ← gets (λ s. (node s i).i_dev)
    here ← gets (λ s. number_of s (entry_at b (nr % 64)))
    choose (leb len nr) (do brelse b; pure true)
        (choose (nr % 64 == 0)
          (do
            brelse b
            block ← bmap i (nr / 64)
            choose (block == 0) skip (do
              bh ← bread dev block
              when_found bh (pure false) (λ c. do
                first ← gets (λ s. number_of s (entry_at c 0))
                choose (first == 0) (next c) (do brelse c; pure false))))
          (choose (here == 0) (next b) (do brelse b; pure false)))

  -- `len` rounds are enough.
  unfoldable pub empty_loop : ℕ → ℕ → ℕ → ℕ → ℕ → Kernel S Bool
  empty_loop zero i len nr b = pure true
  empty_loop (suc n) i len nr b =
      empty_round i len nr b (empty_loop n i len (nr + 64) b) (empty_loop n i len (nr + 1))

  -- The first two entries are not `.` and `..`.
  abbrev pub is_bad_dir : ℕ → ℕ → S → Bool
  is_bad_dir i b s =
      not (number_of s (entry_at b 0) == (node s i).i_num)
      || (number_of s (entry_at b 1) == 0)
      || not (is_text (name_of s (entry_at b 0)) (b'.' ∷ []))
      || not (is_text (name_of s (entry_at b 1)) (b'.' ∷ b'.' ∷ []))

  unfoldable pub empty_dir : ℕ → Kernel S Bool
  empty_dir i = do
    n ← gets (λ s. node s i)
    choose (ltb (n.i_size / 16) 2 || (get_or n.i_zone 0 0 == 0)) (pure false) (do
      bh ← bread n.i_dev (get_or n.i_zone 0 0)
      when_found bh (pure false) (λ b. do
        bad ← gets (is_bad_dir i b)
        choose bad (pure false) (empty_loop (n.i_size / 16) i (n.i_size / 16) 2 b)))

  -- The end of the paths on which sys_rmdir and sys_unlink fail with both inodes.
  unfoldable pub give_up : ℕ → ℕ → ℕ → ℕ → Kernel S ℕ
  give_up first second b result = do iput first; iput second; brelse b; pure result

  unfoldable pub remove_dir : ℕ → ℕ → Entry → Kernel S ℕ
  remove_dir dir i entry = do
    empty ← empty_dir i
    choose (not empty) (give_up i dir entry.buffer enotempty) (do
      set_number entry 0
      brelse entry.buffer
      update ops now i (λ n. record n { i_nlinks = 0; i_dirt = true })
      update ops now dir (λ n. record (unlinked n) { i_ctime = now; i_mtime = now; i_dirt = true })
      iput dir
      iput i
      pure 0)

  -- sys_rmdir, once the inode of the entry is there.
  unfoldable pub check_dir : ℕ → Entry → ℕ → Kernel S ℕ
  check_dir dir entry i = do
    me ← gets euid
    d ← gets (λ s. node s dir)
    n ← gets (λ s. node s i)
    count ← gets (λ s. uses s (inode i))
    choose (is_sticky d.i_mode && not (me == 0) && not (n.i_uid == me))
        (give_up dir i entry.buffer eperm)
        (choose (not (n.i_dev == d.i_dev) || ltb 1 count) (give_up dir i entry.buffer eperm) (
          choose (i == dir) (give_up i dir entry.buffer eperm) (
            choose (not (is_dir n.i_mode)) (give_up i dir entry.buffer enotdir)
              (remove_dir dir i entry))))

  -- The entry of the name, and its inode; `missing` is the error if there is no such inode.
  unfoldable pub with_old : ℕ → (ℕ → Entry → ℕ → Kernel S ℕ) → ℕ → List ℕ → Kernel S ℕ
  with_old missing rest dir0 name = do
    (dir, found) ← find_entry dir0 name
    when_found found (do iput dir; pure enoent)
        (λ entry. do
          dev ← gets (λ s. (node s dir).i_dev)
          nr ← gets (λ s. number_of s entry)
          got ← iget dev nr
          when_found got (do iput dir; brelse entry.buffer; pure missing) (λ i. rest dir entry i))

  unfoldable pub sys_rmdir : List ℕ → Kernel S ℕ
  sys_rmdir path = do
    me ← gets suser
    choose me (in_dir ops now path (with_old eperm check_dir)) (pure eperm)

  -- A file whose count of links is 0 counts as one with a link.
  abbrev pub one_link_less : Node → Node
  one_link_less n = record (if n.i_nlinks == 0 then record n { i_nlinks = 0 } else unlinked n) {
    i_dirt = true;
    i_ctime = now;
  }

  unfoldable pub remove_link : ℕ → Entry → ℕ → Kernel S ℕ
  remove_link dir entry i = do
    me ← gets euid
    super ← gets suser
    d ← gets (λ s. node s dir)
    n ← gets (λ s. node s i)
    choose (is_sticky d.i_mode && not super && not (me == n.i_uid) && not (me == d.i_uid))
        (give_up dir i entry.buffer eperm)
        (choose (is_dir n.i_mode) (give_up i dir entry.buffer eperm) (do
          set_number entry 0
          brelse entry.buffer
          update ops now i one_link_less
          iput i
          iput dir
          pure 0))

  unfoldable pub sys_unlink : List ℕ → Kernel S ℕ
  sys_unlink path = in_dir ops now path (with_old enoent remove_link)

  -- The end of sys_link, with the old inode, the directory and the name.
  unfoldable pub add_link : ℕ → ℕ → List ℕ → Kernel S ℕ
  add_link old dir0 name = do
    (dir, there) ← find_entry dir0 name
    when_found there
        (do
          found ← add_entry dir name
          when_found found (do iput dir; iput old; pure enospc)
              (λ entry. do
                put_number ops now entry old
                brelse entry.buffer
                iput dir
                update ops now old (λ n. record (one_link_more n) { i_ctime = now; i_dirt = true })
                iput old
                pure 0))
        (λ entry. do brelse entry.buffer; iput dir; iput old; pure eexist)

  unfoldable pub sys_link : List ℕ → List ℕ → Kernel S ℕ
  sys_link oldname newname = do
    got ← namei ops now oldname
    when_found got (pure enoent) (λ old. do
      n ← gets (λ s. node s old)
      choose (is_dir n.i_mode) (do iput old; pure eperm)
          (do
            (at, name) ← dir_namei ops now newname
            when_found at (do iput old; pure eacces)
                (λ dir. do
                  dev ← gets (λ s. (node s dir).i_dev)
                  may ← gets (λ s. permission s dir 2)
                  old_dev ← gets (λ s. (node s old).i_dev)
                  choose (is_blank name) (do iput old; iput dir; pure eperm)
                      (choose (not (dev == old_dev)) (do iput dir; iput old; pure exdev)
                        (choose (not may) (do iput dir; iput old; pure eacces)
                          (add_link old dir name))))))
