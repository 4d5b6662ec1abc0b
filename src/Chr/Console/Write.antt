-- ===== src/Chr/Console/Write.antt =====
-- kernel/chr_drv/console.c: `con_write`, on the characters of `write_q`, and `con_init`. The cases of
-- its switch are functions of the state and a character; one that falls through calls the next.
use linux_0_11_read.Prelude.{
  ℕ, ◌+◌, ◌-◌, ◌*◌, ◌/◌, ◌%◌, ◌^◌, List, [], ◌∷◌, not, ◌&&◌, ◌||◌, ◌==◌, ltb, leb, if◌then◌else◌,
  add32, sub32, mul32, get_or, set, replicate,
}
use linux_0_11_read.Chr.Console.{
  Console, n_par, store, gotoxy, set_cursor, lf, ri, cr, del, save_cur, restore_cur, respond,
  sysbeep,
}
use linux_0_11_read.Chr.Console.Edit.{csi_J, csi_K, csi_m, csi_at, csi_L, csi_P, csi_M}

-- `x -= video_num_columns; pos -= video_size_row; lf();`
abbrev pub next_line : Console → Console
next_line s = lf (record s { x = sub32 s.x s.num_columns; pos = sub32 s.pos s.size_row })

unfoldable pub print_char : ℕ → Console → Console
print_char c s =
    let t = if leb s.num_columns s.x then next_line s else s in
    record t {
      word = store t.pos (t.attr * 2 ^ 8 + c) t.word;
      pos = add32 t.pos 2;
      x = add32 t.x 1;
    }

unfoldable pub tab : Console → Console
tab s =
    let c = 8 - s.x % 8 in
    let t = record s { x = add32 s.x c; pos = add32 s.pos (2 * c) } in
    if ltb t.num_columns t.x then next_line t else t

unfoldable pub backspace : Console → Console
backspace s = if s.x == 0 then s else record s { x = s.x - 1; pos = sub32 s.pos 2 }

-- `case 0`. A character is a byte, whose values from 128 on are negative in the source; `erase` is
-- ERASE_CHAR.
unfoldable pub plain : ℕ → ℕ → Console → Console
plain erase c s =
    if ltb 31 c && ltb c 127
    then print_char c s
    else if c == 27
    then record s { state = 1 }
    else if (c == 10) || (c == 11) || (c == 12)
    then lf s
    else if c == 13
    then cr s
    else if (c == erase) && ltb c 128
    then del s
    else if c == 8
    then backspace s
    else if c == 9
    then tab s
    else if c == 7
    then sysbeep s
    else s

-- `case 1`. The last two tests are on `x`, as in the source.
unfoldable pub escape : ℕ → Console → Console
escape c s0 =
    let s = record s0 { state = 0 } in
    if c == b'['
    then record s { state = 2 }
    else if c == b'E'
    then gotoxy 0 (add32 s.y 1) s
    else if c == b'M'
    then ri s
    else if c == b'D'
    then lf s
    else if c == b'Z'
    then respond s
    else if s.x == b'7'
    then save_cur s
    else if s.x == b'8'
    then restore_cur s
    else s

abbrev pub par_at : Console → ℕ → ℕ
par_at s i = get_or s.par i 0

-- `if (par[i]) par[i]--;` and `if (!par[0]) par[0]++;`
abbrev pub count_down : ℕ → Console → Console
count_down i s = if par_at s i == 0 then s else record s { par = set s.par i (par_at s i - 1) }

abbrev pub at_least_1 : Console → Console
at_least_1 s = if par_at s 0 == 0 then record s { par = set s.par 0 1 } else s

-- `case 'r'` behind its first line.
abbrev pub set_region : Console → Console
set_region s0 =
    let s = if par_at s0 1 == 0 then record s0 { par = set s0.par 1 s0.num_lines } else s0 in
    if ltb (par_at s 0) (par_at s 1) && leb (par_at s 1) s.num_lines
    then record s { top = par_at s 0; bottom = par_at s 1 }
    else s

-- The cases of `case 4` that move the cursor by `par[0]`.
unfoldable pub move_cursor : ℕ → Console → Console
move_cursor c s0 =
    let s = at_least_1 s0 in
    let n = par_at s 0 in
    if c == b'A'
    then gotoxy s.x (sub32 s.y n) s
    else if (c == b'B') || (c == b'e')
    then gotoxy s.x (add32 s.y n) s
    else if (c == b'C') || (c == b'a')
    then gotoxy (add32 s.x n) s.y s
    else if c == b'D'
    then gotoxy (sub32 s.x n) s.y s
    else if c == b'E'
    then gotoxy 0 (add32 s.y n) s
    else gotoxy 0 (sub32 s.y n) s

-- Those that edit, and the last three.
unfoldable pub edit : ℕ → Console → Console
edit c s =
    if c == b'J'
    then csi_J (par_at s 0) s
    else if c == b'K'
    then csi_K (par_at s 0) s
    else if c == b'L'
    then csi_L (par_at s 0) s
    else if c == b'M'
    then csi_M (par_at s 0) s
    else if c == b'P'
    then csi_P (par_at s 0) s
    else if c == b'@'
    then csi_at (par_at s 0) s
    else if c == b'm'
    then csi_m s
    else if c == b'r'
    then set_region (count_down 0 s)
    else if c == b's'
    then save_cur s
    else if c == b'u'
    then restore_cur s
    else s

-- `case 4`
unfoldable pub command : ℕ → Console → Console
command c s0 =
    let s = record s0 { state = 0 } in
    let down = count_down 0 s in
    let both = count_down 1 down in
    if (c == b'G') || (c == b'`')
    then gotoxy (par_at down 0) down.y down
    else if (c == b'd')
    then gotoxy down.x (par_at down 0) down
    else if (c == b'H') || (c == b'f')
    then gotoxy (par_at both 1) (par_at both 0) both
    else if (leb b'A' c && leb c b'F') || (c == b'a') || (c == b'e')
    then move_cursor c s
    else edit c s

-- `case 3`
unfoldable pub param : ℕ → Console → Console
param c s =
    if (c == b';') && ltb s.npar (n_par - 1)
    then record s { npar = s.npar + 1 }
    else if leb b'0' c && leb c b'9'
    then record s { par = set s.par s.npar (sub32 (add32 (mul32 10 (par_at s s.npar)) c) b'0') }
    else command c (record s { state = 4 })

-- `case 2`
unfoldable pub first_param : ℕ → Console → Console
first_param c s0 =
    let s = record s0 { par = replicate n_par 0; npar = 0; state = 3; ques = c == b'?' } in
    if c == b'?' then s else param c s

unfoldable pub put_char : ℕ → ℕ → Console → Console
put_char erase c s =
    if s.state == 0
    then plain erase c s
    else if s.state == 1
    then escape c s
    else if s.state == 2
    then first_param c s
    else if s.state == 3
    then param c s
    else if s.state == 4
    then command c s
    else s

unfoldable pub put_chars : ℕ → List ℕ → Console → Console
put_chars erase [] s = s
put_chars erase (c ∷ rest) s = put_chars erase rest (put_char erase c s)

unfoldable pub con_write : ℕ → List ℕ → Console → Console
con_write erase write_q s = set_cursor (put_chars erase write_q s)

-- What setup.s leaves at 0x90000.
pub record Setup : Type 0 where
  pub orig_x : ℕ
  pub orig_y : ℕ
  pub video_mode : ℕ
  pub video_cols : ℕ
  pub ega_bx : ℕ

-- The four characters of `display_desc`, at every second byte from `p` on: each keeps the attribute.
unfoldable pub describe : List ℕ → ℕ → (ℕ → ℕ) → ℕ → ℕ
describe [] p m = m
describe (c ∷ desc) p m = describe desc (p + 2) (store p (m p / 2 ^ 8 * 2 ^ 8 + c) m)

-- The variables that are set in one of four ways: `video_type`, `video_mem_start`,
-- `video_mem_end` and `display_desc`.
abbrev pub display : Setup → ℕ × ℕ × ℕ × List ℕ
display setup =
    if setup.video_mode == 7
    then if not (setup.ega_bx % 2 ^ 8 == 0x10)
      then (0x20, 0xb0000, 0xb8000, b'E' ∷ b'G' ∷ b'A' ∷ b'm' ∷ [])
      else (0x10, 0xb0000, 0xb2000, b'*' ∷ b'M' ∷ b'D' ∷ b'A' ∷ [])
    else if not (setup.ega_bx % 2 ^ 8 == 0x10)
    then (0x21, 0xb8000, 0xbc000, b'E' ∷ b'G' ∷ b'A' ∷ b'c' ∷ [])
    else (0x11, 0xb8000, 0xba000, b'*' ∷ b'C' ∷ b'G' ∷ b'A' ∷ [])

-- `s` has the static variables as the kernel is loaded, and the video memory.
unfoldable pub con_init : Setup → Console → Console
con_init setup s =
    let (video_type, mem_start, mem_end, desc) = display setup in
    let row = setup.video_cols * 2 in
    gotoxy setup.orig_x setup.orig_y (record s {
      video_type = video_type;
      num_columns = setup.video_cols;
      size_row = row;
      num_lines = 25;
      mem_start = mem_start;
      mem_end = mem_end;
      erase_char = 0x0720;
      word = describe desc (mem_start + row - 8) s.word;
      origin = mem_start;
      scr_end = mem_start + 25 * row;
      top = 0;
      bottom = 25;
    })
