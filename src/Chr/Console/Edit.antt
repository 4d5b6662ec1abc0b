-- ===== src/Chr/Console/Edit.antt =====
-- kernel/chr_drv/console.c: the sequences that erase, shift and color, `csi_J` to `csi_M`.
use linux_0_11_read.Prelude.{
  ℕ, zero, suc, ◌+◌, ◌-◌, ◌/◌, List, ◌||◌, ◌==◌, ltb, leb, if◌then◌else◌, sub32, mul32, get_or,
}
use linux_0_11_read.Chr.Console.{Console, store, scrup, scrdown, erase}

unfoldable pub csi_J : ℕ → Console → Console
csi_J par s =
    if par == 0
    then erase s.pos (sub32 s.scr_end s.pos / 2) s
    else if par == 1
    then erase s.origin (sub32 s.pos s.origin / 2) s
    else if par == 2
    then erase s.origin (mul32 s.num_columns s.num_lines) s
    else s

unfoldable pub csi_K : ℕ → Console → Console
csi_K par s =
    let start = sub32 s.pos (mul32 s.x 2) in
    if par == 0
    then if leb s.num_columns s.x then s else erase s.pos (s.num_columns - s.x) s
    else if par == 1
    then erase start (if ltb s.x s.num_columns then s.x else s.num_columns) s
    else if par == 2
    then erase start s.num_columns s
    else s

abbrev pub set_attr : ℕ → ℕ → ℕ
set_attr par attr =
    if par == 0
    then 0x07
    else if (par == 1) || (par == 4)
    then 0x0f
    else if par == 7
    then 0x70
    else if par == 27
    then 0x07
    else attr

-- The loop of `csi_m`, with `n` rounds left, from `i` on.
unfoldable pub set_attrs : ℕ → ℕ → List ℕ → ℕ → ℕ
set_attrs zero i par attr = attr
set_attrs (suc n) i par attr = set_attrs n (i + 1) par (set_attr (get_or par i 0) attr)

unfoldable pub csi_m : Console → Console
csi_m s = record s { attr = set_attrs (s.npar + 1) 0 s.par s.attr }

-- The loop of `insert_char`: `n` words from `p` on, the first of which becomes `old`.
unfoldable pub shift_right : ℕ → ℕ → ℕ → (ℕ → ℕ) → ℕ → ℕ
shift_right zero p old m = m
shift_right (suc n) p old m = shift_right n (p + 2) (m p) (store p old m)

unfoldable pub insert_char : Console → Console
insert_char s = record s { word = shift_right (s.num_columns - s.x) s.pos s.erase_char s.word }

-- The loop of `delete_char`, and the store behind it.
unfoldable pub shift_left : ℕ → ℕ → ℕ → (ℕ → ℕ) → ℕ → ℕ
shift_left zero p last m = store p last m
shift_left (suc n) p last m = shift_left n (p + 2) last (store p (m (p + 2)) m)

unfoldable pub delete_char : Console → Console
delete_char s =
    if leb s.num_columns s.x
    then s
    else record s { word = shift_left (s.num_columns - s.x - 1) s.pos s.erase_char s.word }

-- A scroll of the lines from that of the cursor to the last.
abbrev pub from_cursor : (Console → Console) → Console → Console
from_cursor scroll s = record (scroll (record s { top = s.y; bottom = s.num_lines })) {
  top = s.top;
  bottom = s.bottom;
}

unfoldable pub insert_line : Console → Console
insert_line s = from_cursor scrdown s

unfoldable pub delete_line : Console → Console
delete_line s = from_cursor scrup s

unfoldable pub repeat {ℓ} : {A : Type ℓ} → ℕ → (A → A) → A → A
repeat zero f a = a
repeat (suc n) f a = repeat n f (f a)

-- `if (nr > most) nr = most; else if (!nr) nr = 1;`
abbrev pub rounds : ℕ → ℕ → ℕ
rounds nr most = if ltb most nr then most else if nr == 0 then 1 else nr

unfoldable pub csi_at : ℕ → Console → Console
csi_at nr s = repeat (rounds nr s.num_columns) insert_char s

unfoldable pub csi_L : ℕ → Console → Console
csi_L nr s = repeat (rounds nr s.num_lines) insert_line s

unfoldable pub csi_P : ℕ → Console → Console
csi_P nr s = repeat (rounds nr s.num_columns) delete_char s

unfoldable pub csi_M : ℕ → Console → Console
csi_M nr s = repeat (rounds nr s.num_lines) delete_line s
