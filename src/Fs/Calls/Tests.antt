-- ===== src/Fs/Calls/Tests.antt =====
-- A small file system that keeps the laws, and the calls on it. A directory has its entries in the
-- buffer of its number, eight of them.
use linux_0_11_read.Prelude.{
  ℕ, zero, suc, ◌+◌, ◌-◌, ◌^◌, ◌≡◌, refl, List, [], ◌∷◌, Option, none, some, Bool, true, false, not,
  ◌&&◌, ◌==◌, if◌then◌else◌, Kernel, Outcome, done, halted, panic,
}
use linux_0_11_read.Fs.Calls.Interface.{Node, Entry, Token, inode, of_buffer, Files}
use linux_0_11_read.Fs.Calls.Links.{is_text}
use linux_0_11_read.Fs.Calls.Moves.{is_same}
use linux_0_11_read.Fs.Calls.Laws.{Laws}
use linux_0_11_read.Fs.Calls.Balanced.{perform, unlink, link, mkdir, mknod, rmdir}
use linux_0_11_read.Fs.Calls.Action.{pure, gets, stop_machine, ◌>>=◌, choose, when_found}
use linux_0_11_read.Fs.Calls.Paths.{path_parts, update, walk, get_dir, dir_namei, namei}
use linux_0_11_read.Fs.Calls.Open.{
  put_number, inode_in, in_dir, with_new_inode, make_node, sys_mknod, first_block, drop_block,
  fill_dir, make_dir, sys_mkdir,
}
use linux_0_11_read.Fs.Calls.Links.{
  give_up, remove_dir, check_dir, with_old, sys_rmdir, remove_link, sys_unlink, add_link, sys_link,
}

record World : Type 0 where
  count : Token → ℕ
  nodes : ℕ → Node
  entry : ℕ → ℕ → ℕ × List ℕ

abbrev take_up : Token → World → World
take_up x w = record w { count = λ y. w.count y + (if is_same y x then 1 else 0) }

-- A use that is not there stops the machine.
abbrev give_back : Token → Kernel World (Unit {0})
give_back x w =
    if w.count x == 0
    then halted panic w
    else done tt (record w { count = λ y. w.count y - (if is_same y x then 1 else 0) })

-- The first of the entries from `k` on, `n` of them, with the name, or that is free.
unfoldable search_in : (ℕ × List ℕ → Bool) → World → ℕ → ℕ → ℕ → Option Entry
search_in test w b zero k = none
search_in test w b (suc n) k =
    let rest = search_in test w b n (k + 1) in
    if test (w.entry b k) then some (record { buffer = b; slot = k }) else rest

abbrev found_at : Option Entry → ℕ → Kernel World (ℕ × Option Entry)
found_at none i w = done (i, none) w
found_at (some e) i w = done (i, some e) (take_up (of_buffer e.buffer) w)

abbrev search_dir : ℕ → List ℕ → Kernel World (ℕ × Option Entry)
search_dir i name w =
    found_at (search_in (λ (nr, text). not (nr == 0) && is_text text name) w i 8 0) i w

-- The name goes into the entry that is free.
abbrev add_at : Option Entry → List ℕ → Kernel World (Option Entry)
add_at none name w = done none w
add_at (some e) name w = done (some e) (
    take_up (of_buffer e.buffer) (record w {
      entry = λ b k. if (b == e.buffer) && (k == e.slot) then (0, name) else w.entry b k;
    }))

abbrev add_to : ℕ → List ℕ → Kernel World (Option Entry)
add_to i name w = add_at (search_in (λ (nr, text). nr == 0) w i 8 0) name w

abbrev write_entry : (ℕ × List ℕ → ℕ × List ℕ) → Entry → Kernel World (Unit {0})
write_entry change e w = done tt (record w {
  entry = λ b k. if (b == e.buffer) && (k == e.slot) then change (w.entry b k) else w.entry b k;
})

abbrev small : Files World
small = record {
  uses = λ w. w.count;
  node = λ w. w.nodes;
  set_node = λ i n w. done tt (record w { nodes = λ j. if j == i then n else w.nodes j });
  root = λ w. some 1;
  pwd = λ w. some 1;
  euid = λ w. 0;
  umask = λ w. 0o22;
  suser = λ w. true;
  permission = λ w i mask. true;
  hold = λ i w. done tt (take_up (inode i) w);
  iget = λ dev nr w. done (some nr) (take_up (inode nr) w);
  iput = λ i. give_back (inode i);
  new_inode = λ dev w. done (some 7) (take_up (inode 7) w);
  new_block = λ dev w. done 40 w;
  free_block = λ dev nr w. done tt w;
  truncate = λ i w. done tt w;
  bmap = λ i b w. done 0 w;
  bread = λ dev nr w. done (some nr) (take_up (of_buffer nr) w);
  brelse = λ b. give_back (of_buffer b);
  find_entry = search_dir;
  add_entry = add_to;
  number_of = λ w e. (w.entry e.buffer e.slot).0;
  name_of = λ w e. (w.entry e.buffer e.slot).1;
  set_number = λ e nr. write_entry (λ (old, text). (nr, text)) e;
  set_name = λ e name. write_entry (λ (old, text). (old, name)) e;
}

-- The root is the inode 1, with the file 5 under the name "f".
abbrev world : World
world = record {
  count = λ x. if is_same x (inode 1) then 2 else 0;
  nodes = λ i. record {
    i_mode = if i == 1 then 0o40755 else 0o100644;
    i_uid = 0;
    i_size = 48;
    i_mtime = 0;
    i_atime = 0;
    i_ctime = 0;
    i_nlinks = 1;
    i_zone = [];
    i_dev = 2;
    i_num = i;
    i_dirt = false;
  };
  entry = λ b k. if (b == 1) && (k == 2) then (5, 102 ∷ []) else (0, []);
}

-- What a call returns, and the entry that it leaves at a place.
abbrev result : Outcome World ℕ → Option ℕ
result (done r w) = some r
result (halted h w) = none

abbrev after : {A : Type 0} → Outcome World A → World
after (done r w) = w
after (halted h w) = w

-- `/f` is removed, and its entry is free.
unlink-file :
    let o = perform small 9 (unlink (47 ∷ 102 ∷ [])) world in
    (result o ≡ some 0) × ((after o).entry 1 2 ≡ (0, 102 ∷ []))
unfolding perform sys_unlink remove_link dir_namei get_dir walk path_parts update pure gets
    stop_machine ◌>>=◌ choose when_found search_in is_text in_dir put_number inode_in with_old
unlink-file = (refl, refl)

-- `/f` gets the second name `/g`.
link-file :
    let o = perform small 9 (link (47 ∷ 102 ∷ []) (47 ∷ 103 ∷ [])) world in
    (result o ≡ some 0)
    × (((after o).entry 1 0 ≡ (5, 103 ∷ [])) × (((after o).nodes 5).i_nlinks ≡ 2))
unfolding perform sys_link add_link namei dir_namei get_dir walk path_parts update pure gets
    stop_machine ◌>>=◌ choose when_found search_in is_text in_dir put_number inode_in with_old
link-file = (refl, (refl, refl))

-- `/g` exists for the call that makes it, and `/f` is not one to make.
mknod-file :
    (result (perform small 9 (mknod (47 ∷ 103 ∷ []) 0o20644 4) world) ≡ some 0)
    × (result (perform small 9 (mknod (47 ∷ 102 ∷ []) 0o20644 4) world) ≡ some (2 ^ 32 - 17))
unfolding perform sys_mknod make_node with_new_inode dir_namei get_dir walk path_parts update pure
    gets stop_machine ◌>>=◌ choose when_found search_in is_text in_dir put_number inode_in with_old
mknod-file = (refl, refl)

mkdir-dir : result (perform small 9 (mkdir (47 ∷ 103 ∷ []) 0o755) world) ≡ some 0
unfolding perform sys_mkdir make_dir fill_dir first_block drop_block with_new_inode dir_namei
    get_dir walk path_parts update pure gets stop_machine ◌>>=◌ choose when_found search_in is_text
    in_dir put_number inode_in with_old
mkdir-dir = refl

-- A file is not for sys_rmdir.
rmdir-file : result (perform small 9 (rmdir (47 ∷ 102 ∷ [])) world) ≡ some (2 ^ 32 - 20)
unfolding perform sys_rmdir check_dir give_up remove_dir dir_namei get_dir walk path_parts update
    pure gets stop_machine ◌>>=◌ choose when_found search_in is_text in_dir put_number inode_in
    with_old
rmdir-file = refl
