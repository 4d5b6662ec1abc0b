-- ===== src/Fs/Calls/Open.antt =====
-- fs/namei.c: open_namei, sys_mknod and sys_mkdir.
use Prim.Native.Nat.{bit_and, bit_or}
use linux_0_11_read.Prelude.{
  ℕ, ◌+◌, ◌-◌, ◌/◌, ◌%◌, ◌^◌, List, [], ◌∷◌, Option, none, some, Bool, true, not, ◌&&◌, ◌||◌, ◌==◌,
  if◌then◌else◌, neg32, get_or, set, Kernel,
}
use linux_0_11_read.Kernel.Process.{eperm}
use linux_0_11_read.Fs.Access.{eacces, enoent}
use linux_0_11_read.Fs.Calls.Action.{pure, gets, ◌>>=◌, ◌>>◌, choose, when_found}
use linux_0_11_read.Fs.Calls.Interface.{Node, Entry, Files}
use linux_0_11_read.Fs.Calls.Paths.{update, dir_namei, is_dir, is_kind, is_blank}

abbrev pub eexist : ℕ
eexist = neg32 17

abbrev pub eisdir : ℕ
eisdir = neg32 21

abbrev pub enospc : ℕ
enospc = neg32 28

-- -ERROR
abbrev pub failure : ℕ
failure = neg32 99

-- A flag of `open`, by the value of its bit.
abbrev pub has_bit : ℕ → ℕ → Bool
has_bit flag bit = flag / bit % 2 == 1

-- `flag & O_ACCMODE`
abbrev pub acc_bits : ℕ → ℕ
acc_bits flag = flag % 4

-- ACC_MODE: the characters of the table are signed.
abbrev pub acc_mode : ℕ → ℕ
acc_mode flag = get_or (4 ∷ 2 ∷ 6 ∷ []) (acc_bits flag) (2 ^ 32 - 1)

-- `if ((flag & O_TRUNC) && !(flag & O_ACCMODE)) flag |= O_WRONLY`
abbrev pub with_write : ℕ → ℕ
with_write flag = if has_bit flag 0o1000 && (acc_bits flag == 0) then flag + 1 else flag

-- `mode & 0777 & ~current->umask`
abbrev pub masked_mode : ℕ → ℕ → ℕ
masked_mode mode mask = bit_and (bit_and mode 0o777) (0o777 - bit_and mask 0o777)

-- `i_nlinks--`, in an unsigned char
abbrev pub unlinked : Node → Node
unlinked n = record n { i_nlinks = (n.i_nlinks + 255) % 256 }

abbrev pub one_link_more : Node → Node
one_link_more n = record n { i_nlinks = (n.i_nlinks + 1) % 256 }

module _ {S : Type 0} (ops : Files S) (now : ℕ) where
  open ops use {
    uses, node, set_node, euid, umask, suser, permission, iget, iput, new_inode, new_block,
    free_block, truncate, bread, brelse, find_entry, add_entry, set_number, set_name,
  }

  -- `de->inode = inode->i_num`
  unfoldable pub put_number : Entry → ℕ → Kernel S (Unit {0})
  put_number entry i = gets (λ s. (node s i).i_num) >>= λ nr. set_number entry nr

  -- A new inode on the device of `dir`.
  unfoldable pub inode_in : ℕ → Kernel S (Option ℕ)
  inode_in dir = gets (λ s. (node s dir).i_dev) >>= λ dev. new_inode dev

  -- There is no such entry: O_CREAT.
  unfoldable pub create : ℕ → List ℕ → ℕ → ℕ → Kernel S (ℕ × Option ℕ)
  create dir name flag mode = do
    may ← gets (λ s. permission s dir 2)
    choose (not (has_bit flag 0o100)) (do iput dir; pure (enoent, none))
        (choose (not may) (do iput dir; pure (eacces, none))
          (do
            new ← inode_in dir
            when_found new (do iput dir; pure (enospc, none))
                (λ i. do
                  me ← gets euid
                  update ops now i (λ n. record n { i_uid = me; i_mode = mode; i_dirt = true })
                  found ← add_entry dir name
                  when_found found
                      (do update ops now i unlinked; iput i; iput dir; pure (enospc, none))
                      (λ entry. do
                        put_number entry i
                        brelse entry.buffer
                        iput dir
                        pure (0, some i)))))

  -- There is one: it is opened.
  unfoldable pub open_entry : ℕ → Entry → ℕ → Kernel S (ℕ × Option ℕ)
  open_entry dir entry flag = do
    nr ← gets (λ s. ops.number_of s entry)
    dev ← gets (λ s. (node s dir).i_dev)
    brelse entry.buffer
    iput dir
    choose (has_bit flag 0o200) (pure (eexist, none)) (do
      got ← iget dev nr
      when_found got (pure (eacces, none)) (λ i. do
        bad ← gets (λ s.
            (is_dir (node s i).i_mode && not (acc_bits flag == 0))
            || not (permission s i (acc_mode flag)))
        choose bad (do iput i; pure (eperm, none))
            (do
              update ops now i (λ n. record n { i_atime = now })
              choose (has_bit flag 0o1000) (truncate i) (pure tt)
              pure (0, some i))))

  -- The error, and `*res_inode`.
  unfoldable pub open_namei : List ℕ → ℕ → ℕ → Kernel S (ℕ × Option ℕ)
  open_namei path flag0 mode = do
    mask ← gets umask
    (at, name) ← dir_namei ops now path
    when_found at (pure (enoent, none)) (λ dir0.
        choose (is_blank name)
          (choose
            (not (has_bit (with_write flag0) 0o100)
              && not (has_bit (with_write flag0) 0o1000)
              && (acc_bits (with_write flag0) == 0))
            (pure (0, some dir0)) (do iput dir0; pure (eisdir, none)))
          (do
            (dir, found) ← find_entry dir0 name
            when_found found
                (create dir name (with_write flag0) (bit_or (masked_mode mode mask) 0o100000))
                (λ entry. open_entry dir entry (with_write flag0))))

  -- The start of sys_mknod, sys_mkdir, sys_rmdir and sys_unlink, up to the permission.
  unfoldable pub in_dir : List ℕ → (ℕ → List ℕ → Kernel S ℕ) → Kernel S ℕ
  in_dir path rest = do
    (at, name) ← dir_namei ops now path
    when_found at (pure enoent) (λ dir. do
      may ← gets (λ s. permission s dir 2)
      choose (is_blank name) (do iput dir; pure enoent)
          (choose (not may) (do iput dir; pure eperm) (rest dir name)))

  -- sys_mknod and sys_mkdir go on if there is no such entry, with a new inode.
  unfoldable pub with_new_inode : (ℕ → List ℕ → ℕ → Kernel S ℕ) → ℕ → List ℕ → Kernel S ℕ
  with_new_inode rest dir0 name = do
    (dir, found) ← find_entry dir0 name
    when_found found
        (do new ← inode_in dir; when_found new (do iput dir; pure enospc) (λ i. rest dir name i))
        (λ entry. do brelse entry.buffer; iput dir; pure eexist)

  abbrev pub device_node : ℕ → ℕ → Node → Node
  device_node mode dev n = record n {
    i_mode = mode % 2 ^ 16;
    i_zone = if is_kind 6 mode || is_kind 2 mode then set n.i_zone 0 (dev % 2 ^ 16) else n.i_zone;
    i_mtime = now;
    i_atime = now;
    i_dirt = true;
  }

  unfoldable pub make_node : ℕ → ℕ → ℕ → List ℕ → ℕ → Kernel S ℕ
  make_node mode dev dir name i = do
    update ops now i (device_node mode dev)
    found ← add_entry dir name
    when_found found
        (do iput dir; update ops now i (λ n. record n { i_nlinks = 0 }); iput i; pure enospc)
        (λ entry. do put_number entry i; iput dir; iput i; brelse entry.buffer; pure 0)

  unfoldable pub sys_mknod : List ℕ → ℕ → ℕ → Kernel S ℕ
  sys_mknod path mode dev = do
    me ← gets suser
    choose me (in_dir path (with_new_inode (make_node mode dev))) (pure eperm)

  -- The first block of a directory: `.` and `..`.
  unfoldable pub first_block : ℕ → ℕ → ℕ → Kernel S (Unit {0})
  first_block b i dir = do
    put_number (record { buffer = b; slot = 0 }) i
    set_name (record { buffer = b; slot = 0 }) (b'.' ∷ [])
    put_number (record { buffer = b; slot = 1 }) dir
    set_name (record { buffer = b; slot = 1 }) (b'.' ∷ b'.' ∷ [])
    update ops now i (λ n. record n { i_nlinks = 2 })
    brelse b

  -- `free_block(inode->i_dev,inode->i_zone[0])`
  unfoldable pub drop_block : ℕ → Kernel S (Unit {0})
  drop_block i = do n ← gets (λ s. node s i); free_block n.i_dev (get_or n.i_zone 0 0)

  -- sys_mkdir, once the block of the new directory is in the buffer `b`.
  unfoldable pub fill_dir : ℕ → ℕ → List ℕ → ℕ → ℕ → Kernel S ℕ
  fill_dir mode dir name i b = do
    first_block b i dir
    mask ← gets umask
    update ops now i (λ n. record n { i_mode = 0o40000 + masked_mode mode mask; i_dirt = true })
    found ← add_entry dir name
    when_found found
        (do
          iput dir
          drop_block i
          update ops now i (λ n. record n { i_nlinks = 0 })
          iput i
          pure enospc)
        (λ entry. do
          put_number entry i
          update ops now dir (λ n. record (one_link_more n) { i_dirt = true })
          iput dir
          iput i
          brelse entry.buffer
          pure 0)

  unfoldable pub make_dir : ℕ → ℕ → List ℕ → ℕ → Kernel S ℕ
  make_dir mode dir name i = do
    update ops now i (λ n. record n { i_size = 32; i_dirt = true; i_mtime = now; i_atime = now })
    dev ← gets (λ s. (node s i).i_dev)
    nr ← new_block dev
    block ← pure (nr % 2 ^ 16)
    update ops now i (λ n. record n { i_zone = set n.i_zone 0 block })
    choose (block == 0) (do iput dir; update ops now i unlinked; iput i; pure enospc)
        (do
          update ops now i (λ n. record n { i_dirt = true })
          bh ← bread dev block
          when_found bh (do iput dir; drop_block i; update ops now i unlinked; iput i; pure failure)
              (λ b. fill_dir mode dir name i b))

  unfoldable pub sys_mkdir : List ℕ → ℕ → Kernel S ℕ
  sys_mkdir path mode = do
    me ← gets suser
    choose me (in_dir path (with_new_inode (make_dir mode))) (pure eperm)
