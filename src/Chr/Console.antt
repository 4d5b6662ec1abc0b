-- ===== src/Chr/Console.antt =====
-- kernel/chr_drv/console.c: the screen and the cursor. `word` is the video memory, one 16-bit word
-- of character and attribute at each even address; the other fields are the static variables.
pub mod Edit
pub mod Write
pub mod Layout
pub mod Scroll
pub mod Editing
pub mod Printing
pub mod Sequences
pub mod Safe
pub mod Screen
mod Tests
use linux_0_11_read.Prelude.{
  ℕ, zero, suc, ◌+◌, ◌-◌, ◌*◌, ◌/◌, ◌%◌, ◌^◌, List, [], ◌∷◌, ◌++◌, Bool, true, false, not, ◌&&◌,
  ◌||◌, ◌==◌, ltb, leb, if◌then◌else◌, add32, sub32, mul32, get_or, set,
}

pub record Console : Type 0 where
  pub video_type : ℕ
  pub num_columns : ℕ
  pub size_row : ℕ
  pub num_lines : ℕ
  pub mem_start : ℕ
  pub mem_end : ℕ
  pub erase_char : ℕ
  pub origin : ℕ
  pub scr_end : ℕ
  pub pos : ℕ
  pub x : ℕ
  pub y : ℕ
  pub top : ℕ
  pub bottom : ℕ
  pub state : ℕ
  pub npar : ℕ
  pub par : List ℕ
  pub ques : Bool
  pub attr : ℕ
  pub saved_x : ℕ
  pub saved_y : ℕ
  pub word : ℕ → ℕ
  -- The registers 12, 13 and 14, 15 of the display, `beepcount`, and what `respond` puts in `read_q`.
  pub screen_start : ℕ
  pub cursor : ℕ
  pub beepcount : ℕ
  pub typed : List ℕ

-- NPAR
abbrev pub n_par : ℕ
n_par = 16

abbrev pub is_ega : Console → Bool
is_ega s = (s.video_type == 0x21) || (s.video_type == 0x20)

-- `rep ; stosw` of `count` words from `start` up.
abbrev pub fill : ℕ → ℕ → ℕ → (ℕ → ℕ) → ℕ → ℕ
fill start count c m a = if leb start a && ltb a (start + 2 * count) then c else m a

-- `rep ; movsl` of `count` double words, in the direction in which it reads no word that it has
-- written: up for `to` below `from`, down for `to` above it. Both are the lowest addresses.
abbrev pub move : ℕ → ℕ → ℕ → (ℕ → ℕ) → ℕ → ℕ
move to from count m a = if leb to a && ltb a (to + 4 * count) then m (a - to + from) else m a

abbrev pub store : ℕ → ℕ → (ℕ → ℕ) → ℕ → ℕ
store p v m a = if a == p then v else m a

unfoldable pub gotoxy : ℕ → ℕ → Console → Console
gotoxy new_x new_y s = if ltb s.num_columns new_x || leb s.num_lines new_y then s else record s {
  x = new_x;
  y = new_y;
  pos = add32 (add32 s.origin (mul32 new_y s.size_row)) (mul32 new_x 2);
}

-- What two registers of 8 bits get of an address.
abbrev pub register_of : ℕ → Console → ℕ
register_of a s = sub32 a s.mem_start / 2 % 2 ^ 16

abbrev pub set_origin : Console → Console
set_origin s = record s { screen_start = register_of s.origin s }

abbrev pub set_cursor : Console → Console
set_cursor s = record s { cursor = register_of s.pos s }

-- The address of a line.
abbrev pub line_at : ℕ → Console → ℕ
line_at n s = add32 s.origin (mul32 s.size_row n)

-- `(bottom-top-1)*video_num_columns>>1`
abbrev pub region_count : Console → ℕ
region_count s = mul32 (sub32 (sub32 s.bottom s.top) 1) s.num_columns / 2

-- The assembly that moves the lines of the region up, in both halves of `scrup`.
abbrev pub move_up : Console → Console
move_up s =
    let count = region_count s in
    let to = line_at s.top s in
    record s {
      word =
          fill (to + 4 * count) s.num_columns s.erase_char
            (move to (line_at (add32 s.top 1) s) count s.word);
    }

-- The screen is at the end of the video memory: it goes back to its start.
abbrev pub wrap_screen : Console → Console
wrap_screen s =
    let count = mul32 (sub32 s.num_lines 1) s.num_columns / 2 in
    let back = sub32 s.origin s.mem_start in
    record s {
      word =
          fill (s.mem_start + 4 * count) s.num_columns s.erase_char
            (move s.mem_start s.origin count s.word);
      scr_end = sub32 s.scr_end back;
      pos = sub32 s.pos back;
      origin = s.mem_start;
    }

-- The new last line is cleared.
abbrev pub clear_last : Console → Console
clear_last s = record s {
  word = fill (sub32 s.scr_end s.size_row) s.num_columns s.erase_char s.word;
}

abbrev pub next_origin : Console → Console
next_origin s = record s {
  origin = add32 s.origin s.size_row;
  pos = add32 s.pos s.size_row;
  scr_end = add32 s.scr_end s.size_row;
}

abbrev pub advance : Console → Console
advance t = set_origin (if ltb t.mem_end t.scr_end then wrap_screen t else clear_last t)

unfoldable pub scrup : Console → Console
scrup s =
    if is_ega s && (s.top == 0) && (s.bottom == s.num_lines)
    then advance (next_origin s)
    else move_up s

-- Both halves are the same: from the end of the region down.
unfoldable pub scrdown : Console → Console
scrdown s =
    let count = region_count s in
    let end = line_at s.bottom s in
    let from_end = line_at (sub32 s.bottom 1) s in
    record s {
      word =
          fill (end - 4 * count - 2 * s.num_columns) s.num_columns s.erase_char
            (move (end - 4 * count) (from_end - 4 * count) count s.word);
    }

unfoldable pub lf : Console → Console
lf s =
    if ltb (add32 s.y 1) s.bottom
    then record s { y = add32 s.y 1; pos = add32 s.pos s.size_row }
    else scrup s

unfoldable pub ri : Console → Console
ri s = if ltb s.top s.y then record s { y = s.y - 1; pos = sub32 s.pos s.size_row } else scrdown s

unfoldable pub cr : Console → Console
cr s = record s { pos = sub32 s.pos (mul32 s.x 2); x = 0 }

unfoldable pub del : Console → Console
del s = if s.x == 0 then s else record s {
  pos = sub32 s.pos 2;
  x = s.x - 1;
  word = store (sub32 s.pos 2) s.erase_char s.word;
}

abbrev pub erase : ℕ → ℕ → Console → Console
erase start count s = record s { word = fill start count s.erase_char s.word }

unfoldable pub save_cur : Console → Console
save_cur s = record s { saved_x = s.x; saved_y = s.y }

unfoldable pub restore_cur : Console → Console
restore_cur s = gotoxy s.saved_x s.saved_y s

-- ESC [ ? 1 ; 2 c
abbrev pub response : List ℕ
response = 27 ∷ b'[' ∷ b'?' ∷ b'1' ∷ b';' ∷ b'2' ∷ b'c' ∷ []

-- The answer. `copy_to_cooked` behind it, which echoes by `con_write` again, is left out.
abbrev pub respond : Console → Console
respond s = record s { typed = s.typed ++ response }

-- HZ/8
abbrev pub sysbeep : Console → Console
sysbeep s = record s { beepcount = 12 }
