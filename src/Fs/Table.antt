-- ===== src/Fs/Table.antt =====
-- fs/inode.c: the table of inodes, and what is read from and written to the disk. A call that would
-- wait for the lock of an inode ends there.
pub mod Calls
pub mod Triple
pub mod Unique
pub mod Once
pub mod Stable
pub mod Counts
pub mod Uses
pub mod Rounds
mod Tests
use linux_0_11_read.Prelude.{
  ℕ, zero, suc, ◌+◌, ◌-◌, ◌*◌, ◌/◌, ◌%◌, ◌^◌, List, [], ◌∷◌, Option, none, some, Bool, true, false,
  not, ◌&&◌, ◌||◌, ◌==◌, ltb, leb, if◌then◌else◌, replicate, Kernel, Outcome, done, halted, asleep,
}
use linux_0_11_read.Fs.Calls.Action.{pure, gets, stop_machine, ◌>>=◌, ◌>>◌, choose, when_found}

pub record DInode : Type 0 where
  pub i_mode : ℕ
  pub i_uid : ℕ
  pub i_size : ℕ
  pub i_mtime : ℕ
  pub i_gid : ℕ
  pub i_nlinks : ℕ
  pub i_zone : List ℕ

-- `struct m_inode`, which starts with the fields of the inode on the disk.
pub record Slot : Type 0 where
  pub on_disk : DInode
  pub i_atime : ℕ
  pub i_ctime : ℕ
  pub i_dev : ℕ
  pub i_num : ℕ
  pub i_count : ℕ
  pub i_lock : Bool
  pub i_dirt : Bool
  pub i_pipe : Bool
  pub i_mount : Bool

-- What the table needs of a superblock; `s_imount` is a slot of the table.
pub record SuperBlock : Type 0 where
  pub s_dev : ℕ
  pub s_imap_blocks : ℕ
  pub s_zmap_blocks : ℕ
  pub s_imount : Option ℕ

-- The blocks of inodes, by device, number and place in the block, are their buffers.
pub record Inodes : Type 0 where
  pub inode_table : ℕ → Slot
  pub last_inode : ℕ
  pub super_block : List SuperBlock
  pub in_block : ℕ → ℕ → ℕ → DInode

-- What fs/inode.c calls of other files, and the blocks that can be read.
pub record Below : Type 0 where
  pub truncate : ℕ → Kernel Inodes (Unit {0})
  pub free_inode : ℕ → Kernel Inodes (Unit {0})
  pub sync_dev : ℕ → Kernel Inodes (Unit {0})
  pub free_page : ℕ → Kernel Inodes (Unit {0})
  pub get_free_page : Kernel Inodes ℕ
  pub can_read : ℕ → ℕ → Bool

abbrev pub nr_inode : ℕ
nr_inode = 32

-- `memset(inode,0,sizeof(*inode))`
abbrev pub empty_slot : Slot
empty_slot = record {
  on_disk = record {
    i_mode = 0;
    i_uid = 0;
    i_size = 0;
    i_mtime = 0;
    i_gid = 0;
    i_nlinks = 0;
    i_zone = replicate 9 0;
  };
  i_atime = 0;
  i_ctime = 0;
  i_dev = 0;
  i_num = 0;
  i_count = 0;
  i_lock = false;
  i_dirt = false;
  i_pipe = false;
  i_mount = false;
}

unfoldable pub slot_at : ℕ → Kernel Inodes Slot
slot_at i = gets (λ s. s.inode_table i)

unfoldable pub change : ℕ → (Slot → Slot) → Kernel Inodes (Unit {0})
change i f s =
    done tt
      (record s { inode_table = λ j. if j == i then f (s.inode_table i) else s.inode_table j })

-- A sleep, or a loop that goes on for ever.
unfoldable pub wait_for_ever : {A : Type 0} → Kernel Inodes A
wait_for_ever s = halted asleep s

unfoldable pub wait_on_inode : ℕ → Kernel Inodes (Unit {0})
wait_on_inode i = slot_at i >>= λ n. choose n.i_lock wait_for_ever (pure tt)

unfoldable pub lock_inode : ℕ → Kernel Inodes (Unit {0})
lock_inode i = do wait_on_inode i; change i (λ n. record n { i_lock = true })

unfoldable pub unlock_inode : ℕ → Kernel Inodes (Unit {0})
unlock_inode i = change i (λ n. record n { i_lock = false })

unfoldable pub super_on : List SuperBlock → ℕ → Option SuperBlock
super_on [] dev = none
super_on (b ∷ supers) dev =
    let rest = super_on supers dev in if b.s_dev == dev then some b else rest

-- `get_super`
abbrev pub super_of : ℕ → Inodes → Option SuperBlock
super_of dev s = if dev == 0 then none else super_on s.super_block dev

-- `i_num - 1`, in unsigned arithmetic
abbrev pub before_nr : ℕ → ℕ
before_nr nr = (nr + (2 ^ 32 - 1)) % 2 ^ 32

abbrev pub block_of : SuperBlock → ℕ → ℕ
block_of b nr = (2 + b.s_imap_blocks + b.s_zmap_blocks + before_nr nr / 32) % 2 ^ 32

unfoldable pub put_in_block : ℕ → ℕ → ℕ → DInode → Kernel Inodes (Unit {0})
put_in_block dev block place d s = done tt (record s {
  in_block = λ e b k. if (e == dev) && ((b == block) && (k == place)) then d else s.in_block e b k;
})

module _ (below : Below) where
  -- The superblock, for a block of inodes that can be read.
  unfoldable pub with_block : Slot → (ℕ → Kernel Inodes (Unit {0})) → Kernel Inodes (Unit {0})
  with_block n rest = do
    sb ← gets (super_of n.i_dev)
    when_found sb stop_machine (λ b.
        choose (below.can_read n.i_dev (block_of b n.i_num)) (rest (block_of b n.i_num))
          stop_machine)

  unfoldable pub read_inode : ℕ → Kernel Inodes (Unit {0})
  read_inode i = do
    lock_inode i
    n ← slot_at i
    with_block n (λ block. do
      d ← gets (λ s. s.in_block n.i_dev block (before_nr n.i_num % 32))
      change i (λ m. record m { on_disk = d })
      unlock_inode i)

  unfoldable pub write_inode : ℕ → Kernel Inodes (Unit {0})
  write_inode i = do
    lock_inode i
    n ← slot_at i
    choose (not n.i_dirt || (n.i_dev == 0)) (unlock_inode i) (
        with_block n (λ block. do
          put_in_block n.i_dev block (before_nr n.i_num % 32) n.on_disk
          change i (λ m. record m { i_dirt = false })
          unlock_inode i))

  unfoldable pub sync_loop : ℕ → ℕ → Kernel Inodes (Unit {0})
  sync_loop zero i = pure tt
  sync_loop (suc k) i = do
    wait_on_inode i
    n ← slot_at i
    choose (n.i_dirt && not n.i_pipe) (write_inode i) (pure tt)
    sync_loop k (i + 1)

  unfoldable pub sync_inodes : Kernel Inodes (Unit {0})
  sync_inodes = sync_loop nr_inode 0

unfoldable pub invalidate_loop : ℕ → ℕ → ℕ → Kernel Inodes (Unit {0})
invalidate_loop zero i dev = pure tt
invalidate_loop (suc k) i dev = do
  wait_on_inode i
  n ← slot_at i
  choose (n.i_dev == dev) (change i (λ m. record m { i_dev = 0; i_dirt = false })) (pure tt)
  invalidate_loop k (i + 1) dev

unfoldable pub invalidate_inodes : ℕ → Kernel Inodes (Unit {0})
invalidate_inodes dev = invalidate_loop nr_inode 0 dev
