-- ===== src/Fs/Calls/Interface.antt =====
-- What the calls of fs/namei.c use: the table of inodes, by the numbers of its slots, the buffers, and
-- the search in a directory.
use linux_0_11_read.Prelude.{ℕ, List, Option, Bool, Kernel}

-- The fields of `m_inode` that the calls read and write; `i_count` is a use of the slot, below.
pub record Node : Type 0 where
  pub i_mode : ℕ
  pub i_uid : ℕ
  pub i_size : ℕ
  pub i_mtime : ℕ
  pub i_atime : ℕ
  pub i_ctime : ℕ
  pub i_nlinks : ℕ
  pub i_zone : List ℕ
  pub i_dev : ℕ
  pub i_num : ℕ
  pub i_dirt : Bool

-- `bh` and `de`: a buffer, and the place of the entry in it.
pub record Entry : Type 0 where
  pub buffer : ℕ
  pub slot : ℕ

-- What is in use: a slot of the table of inodes, `i_count` times, or a buffer, `b_count` times.
pub data Token : Type 0 where
  inode of_buffer : ℕ → Token

pub record Files (S : Type 0) : Type 0 where
  pub uses : S → Token → ℕ
  pub node : S → ℕ → Node
  pub set_node : ℕ → Node → Kernel S (Unit {0})
  -- `current->root`, `current->pwd`, `current->euid`, `current->umask` and `suser`
  pub root : S → Option ℕ
  pub pwd : S → Option ℕ
  pub euid : S → ℕ
  pub umask : S → ℕ
  pub suser : S → Bool
  pub permission : S → ℕ → ℕ → Bool
  -- `inode->i_count++`
  pub hold : ℕ → Kernel S (Unit {0})
  pub iget : ℕ → ℕ → Kernel S (Option ℕ)
  pub iput : ℕ → Kernel S (Unit {0})
  pub new_inode : ℕ → Kernel S (Option ℕ)
  pub new_block : ℕ → Kernel S ℕ
  pub free_block : ℕ → ℕ → Kernel S (Unit {0})
  pub truncate : ℕ → Kernel S (Unit {0})
  pub bmap : ℕ → ℕ → Kernel S ℕ
  pub bread : ℕ → ℕ → Kernel S (Option ℕ)
  pub brelse : ℕ → Kernel S (Unit {0})
  -- `find_entry` may change the directory.
  pub find_entry : ℕ → List ℕ → Kernel S (ℕ × Option Entry)
  pub add_entry : ℕ → List ℕ → Kernel S (Option Entry)
  -- `de->inode` and `de->name`, as a string, and `de->inode = nr; bh->b_dirt = 1`
  pub number_of : S → Entry → ℕ
  pub name_of : S → Entry → List ℕ
  pub set_number : Entry → ℕ → Kernel S (Unit {0})
  pub set_name : Entry → List ℕ → Kernel S (Unit {0})
