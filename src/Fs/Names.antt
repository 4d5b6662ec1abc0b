-- ===== src/Fs/Names.antt =====
-- fs/namei.c: the entries of a directory. An entry has 16 bytes, 2 for the inode and 14 for the name;
-- it is given by the number of its block and its place there.
pub mod Entries
mod Tests
use linux_0_11_read.Prelude.{
  ℕ, zero, suc, ◌+◌, ◌-◌, ◌*◌, ◌/◌, ◌%◌, List, [], ◌∷◌, ◌++◌, Option, none, some, Bool, true, false,
  not, ◌&&◌, ◌||◌, ◌==◌, ltb, leb, if◌then◌else◌, length, take, replicate, Kernel, Outcome, done,
  halted,
}
use linux_0_11_read.Fs.Inode.{
  MInode, Store, Mapped, short_at, put_short, zone_at, bmap, create_block,
}
use linux_0_11_read.Fs.Regular.{put_bytes}

abbrev pub name_len : ℕ
name_len = 14

-- `de->inode`, in the entry `k` of a block
abbrev pub inode_of : Store → ℕ → ℕ → ℕ → ℕ
inode_of s dev b k = short_at s dev b (8 * k)

-- repe ; cmpsb
unfoldable pub same_bytes : Store → ℕ → ℕ → ℕ → List ℕ → Bool
same_bytes s dev b at [] = true
same_bytes s dev b at (c ∷ cs) = (s.byte dev b at == c) && same_bytes s dev b (at + 1) cs

-- `match`, for a name of at least one character
unfoldable pub matches : Store → ℕ → ℕ → ℕ → List ℕ → Bool
matches s dev b k name =
    if (inode_of s dev b k == 0) || ltb name_len (length name)
    then false
    else if ltb (length name) name_len && not (s.byte dev b (16 * k + 2 + length name) == 0)
    then false
    else same_bytes s dev b (16 * k + 2) name

-- `if (namelen > NAME_LEN) namelen = NAME_LEN`
abbrev pub cut_name : List ℕ → List ℕ
cut_name name = take name_len name

-- The entry `i` is the first one of a block that is not yet read.
abbrev pub is_past : ℕ → Bool
is_past i = not (i == 0) && (i % 64 == 0)

-- What the directory is for `..`: `current->root`, and else the root of a device whose superblock
-- has `s_imount`.
pub record Above : Type 0 where
  pub is_root : Bool
  pub i_num : ℕ
  pub s_imount : Option MInode

abbrev pub is_dot : List ℕ → Bool
is_dot [] = false
is_dot (a ∷ name) = (a == b'.') && (length name == 0)

-- `..`
abbrev pub is_dot_dot : List ℕ → Bool
is_dot_dot [] = false
is_dot_dot (a ∷ name) = (a == b'.') && is_dot name

-- The magic for `..`: the name and the directory that are searched. The counts of the inodes are left out.
unfoldable pub traverse : Above → List ℕ → MInode → List ℕ × MInode
traverse above name dir =
    if not (is_dot_dot name)
    then (name, dir)
    else if above.is_root
    then (take 1 name, dir)
    else if above.i_num == 1
    then elim above.s_imount [ none ↦ (name, dir) | some p ↦ (name, p) ]
    else (name, dir)

-- CURRENT_TIME, the blocks that `bread` can read, and `new_block`.
module _ (now : ℕ) (readable : ℕ → ℕ → Bool) (new_block : ℕ → Store → ℕ × Store) where
  -- The block with the entry `i`, behind `b`. None: it cannot be read, or there is none, and then the
  -- test of the next round counts as true, though `bh` is null in it.
  unfoldable pub entry_block : ℕ → ℕ → Kernel Mapped (Option ℕ)
  entry_block i b m =
      let next : Outcome Mapped (Option ℕ) = elim (bmap now readable new_block (i / 64) m) [
        | halted h t ↦ halted h t
        | done nr t ↦
            done (if (nr == 0) || not (readable m.inode.i_dev nr) then none else some nr) t
      ] in
      if is_past i then next else done (some b) m

  -- The loop of `find_entry`, from the entry `i` on. A round goes on by an entry at least.
  unfoldable pub find_loop : ℕ → ℕ → List ℕ → ℕ → ℕ → Kernel Mapped (Option (ℕ × ℕ))
  find_loop zero entries name i b m = done none m
  find_loop (suc n) entries name i b m =
      let here : Outcome Mapped (Option (ℕ × ℕ)) = elim (entry_block i b m) [
        | halted h t ↦ halted h t
        | done found t ↦ elim found [
          | none ↦ find_loop n entries name (i + 64) b t
          | some c ↦
              let rest = find_loop n entries name (i + 1) c t in
              if matches t.store t.inode.i_dev c (i % 64) name
              then done (some (c, i % 64)) t
              else rest
        ]
      ] in
      if leb entries i then done none m else here

  -- The directory of the state is `*dir`.
  unfoldable pub find_entry : Above → List ℕ → Kernel Mapped (Option (ℕ × ℕ))
  find_entry above full m =
      let entries = m.inode.i_size / 16 in
      let (name, dir) = traverse above (cut_name full) m.inode in
      let t : Mapped = record m { inode = dir } in
      let b = zone_at dir 0 in
      if length full == 0
      then done none m
      else if (b == 0) || not (readable dir.i_dev b)
      then done none t
      else find_loop entries entries name 0 b t

  -- The entry `i`, at the place `k` of the block `b`, is behind the end of the directory: it is made.
  abbrev pub extended : ℕ → ℕ → Mapped → Mapped
  extended b i m =
      if leb m.inode.i_size (16 * i)
      then record {
        inode = record m.inode { i_size = 16 * (i + 1); i_dirt = true; i_ctime = now };
        store = put_short m.store m.inode.i_dev b (8 * (i % 64)) 0;
      }
      else m

  -- The name, with zeros behind it.
  abbrev pub named : ℕ → ℕ → List ℕ → Mapped → Mapped
  named b k name m = record {
    inode = record m.inode { i_mtime = now };
    store =
        put_bytes m.store m.inode.i_dev b (16 * k + 2)
          (name ++ replicate (name_len - length name) 0);
  }

  -- The loop of `add_entry`. The entry behind the last one is made, so that a round more than there are
  -- entries is enough.
  unfoldable pub add_loop : ℕ → List ℕ → ℕ → ℕ → Kernel Mapped (Option (ℕ × ℕ))
  add_loop zero name i b m = done none m
  add_loop (suc n) name i b m =
      let made : Outcome Mapped ℕ =
        if is_past i then create_block now readable new_block (i / 64) m else done b m in
      elim made [
        | halted h t ↦ halted h t
        | done c t ↦ elim (c == 0) [
          | true ↦ done none t
          | false ↦ elim (is_past i && not (readable t.inode.i_dev c)) [
            | true ↦ add_loop n name (i + 64) b t
            | false ↦
                let u = extended c i t in
                let rest = add_loop n name (i + 1) c u in
                if inode_of u.store u.inode.i_dev c (i % 64) == 0
                then done (some (c, i % 64)) (named c (i % 64) name u)
                else rest
          ]
        ]
      ]

  unfoldable pub add_entry : List ℕ → Kernel Mapped (Option (ℕ × ℕ))
  add_entry full m =
      let b = zone_at m.inode 0 in
      if (length full == 0) || (b == 0) || not (readable m.inode.i_dev b)
      then done none m
      else add_loop (m.inode.i_size / 16 + 1) (cut_name full) 0 b m
