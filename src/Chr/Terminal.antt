-- ===== src/Chr/Terminal.antt =====
-- kernel/chr_drv/tty_io.c and include/linux/tty.h: the queues of a terminal, and the line discipline.
-- A character is a byte, whose values from 128 on are negative numbers in the source.
pub mod Read
pub mod Ring
pub mod Editor
pub mod Cooked
pub mod Copy
pub mod Lines
pub mod Reads
mod Tests
use Prim.Native.Nat.{bit_or}
use linux_0_11_read.Prelude.{
  ℕ, zero, suc, ◌+◌, ◌-◌, ◌*◌, ◌/◌, ◌%◌, ◌^◌, ◌≡◌, List, [], ◌∷◌, Option, none, some, Bool, true,
  false, not, ◌&&◌, ◌||◌, ◌==◌, ltb, leb, slt, if◌then◌else◌, add32, sub32, get_or, set,
}
use linux_0_11_read.Kernel.Process.{Process, Processes, process_at}

pub record Queue : Type 0 where
  pub data_of : ℕ
  pub head : ℕ
  pub tail : ℕ
  pub buf : ℕ → ℕ

pub record Termios : Type 0 where
  pub c_iflag : ℕ
  pub c_oflag : ℕ
  pub c_lflag : ℕ
  pub c_cc : List ℕ

-- `struct tty_struct`, and the processes that its signals go to. `write` is a parameter
-- below.
pub record Tty : Type 0 where
  pub termios : Termios
  pub pgrp : ℕ
  pub stopped : Bool
  pub read_q : Queue
  pub write_q : Queue
  pub secondary : Queue
  pub processes : Processes

abbrev pub tty_buf_size : ℕ
tty_buf_size = 1024

-- INC, DEC, EMPTY, LEFT, LAST, FULL, CHARS, GETCH and PUTCH
abbrev pub inc : ℕ → ℕ
inc a = (a + 1) % 1024

abbrev pub dec : ℕ → ℕ
dec a = (a + 1023) % 1024

abbrev pub is_empty : Queue → Bool
is_empty q = q.head == q.tail

abbrev pub left : Queue → ℕ
left q = sub32 (sub32 q.tail q.head) 1 % 1024

abbrev pub last : Queue → ℕ
last q = q.buf (dec q.head)

abbrev pub is_full : Queue → Bool
is_full q = left q == 0

abbrev pub chars : Queue → ℕ
chars q = sub32 q.head q.tail % 1024

abbrev pub put_at : (ℕ → ℕ) → ℕ → ℕ → ℕ → ℕ
put_at buf i c j = if j == i then c else buf j

abbrev pub getch : Queue → ℕ × Queue
getch q = (q.buf q.tail, record q { tail = inc q.tail })

abbrev pub putch : ℕ → Queue → Queue
putch c q = record q { buf = put_at q.buf q.head c; head = inc q.head }

abbrev pub drop_last : Queue → Queue
drop_last q = record q { head = dec q.head }

-- A flag, by the value of its bit.
abbrev pub has_flag : ℕ → ℕ → Bool
has_flag flags bit = flags / bit % 2 == 1

abbrev pub is_canon : Termios → Bool
is_canon t = has_flag t.c_lflag 2

abbrev pub is_echo : Termios → Bool
is_echo t = has_flag t.c_lflag 8

-- `c == c_cc[i]`, of a signed character and an unsigned one.
abbrev pub is_cc : Termios → ℕ → ℕ → Bool
is_cc t i c = (c == get_or t.c_cc i 0) && ltb c 128

abbrev pub is_eof : Termios → ℕ → Bool
is_eof t c = is_cc t 4 c

-- `c < 32`
abbrev pub is_control : ℕ → Bool
is_control c = ltb c 32 || leb 128 c

abbrev pub to_lower : ℕ → ℕ
to_lower c = if leb b'A' c && leb c b'Z' then c + 32 else c

-- The character that the input flags make of one, or none if it is dropped.
unfoldable pub input_char : Termios → ℕ → Option ℕ
input_char t c =
    let crnl =
      if c == 13
      then if has_flag t.c_iflag 0o400
        then some 10
        else if has_flag t.c_iflag 0o200
        then none
        else some 13
      else some (if (c == 10) && has_flag t.c_iflag 0o100 then 13 else c) in
    elim crnl as (λ x. Option ℕ) [
      | none ↦ none
      | some d ↦ some (if has_flag t.c_iflag 0o1000 then to_lower d else d)
    ]

-- The loop of `tty_intr`, on `n` entries from `i` on.
unfoldable pub intr_loop : ℕ → ℕ → ℕ → ℕ → Processes → Processes
intr_loop pgrp mask zero i s = s
intr_loop pgrp mask (suc n) i s = intr_loop pgrp mask n (i + 1) (elim (process_at s i) [
  | none ↦ s
  | some p ↦
      if p.pgrp == pgrp
      then record s { task = set s.task i (some (record p { signal = bit_or p.signal mask })) }
      else s
])

unfoldable pub tty_intr : ℕ → Tty → Tty
tty_intr mask t =
    if not (slt 0 t.pgrp)
    then t
    else record t { processes = intr_loop t.pgrp mask 64 0 t.processes }

-- The end of a line in `secondary`: a line feed or EOF_CHAR.
abbrev pub is_end : Termios → ℕ → Bool
is_end t c = (c == 10) || is_eof t c

-- `EMPTY(tty->secondary) || (c=LAST(tty->secondary))==10 || c==EOF_CHAR(tty)`
abbrev pub at_start : Tty → Bool
at_start t = is_empty t.secondary || is_end t.termios (last t.secondary)

-- What `write` leaves of a terminal: the settings and the two queues of input.
pub record IsAlike (t u : Tty) : Type 0 where
  pub settings : u.termios ≡ t.termios
  pub input : u.read_q ≡ t.read_q
  pub cooked : u.secondary ≡ t.secondary

-- A driver such as `rs_write` of kernel/chr_drv/serial.c, which starts the line and touches nothing
-- of the terminal. `con_write` is one as long as it is not asked for an answer (ESC Z, ESC [ c).
pub record IsDriver (write : Tty → Tty) : Type 0 where
  pub alike : (t : Tty) → IsAlike t (write t)

module _ (write : Tty → Tty) where
  -- The echo of the removal of the last character.
  unfoldable pub echo_rub : Tty → Tty
  echo_rub t =
      let c = last t.secondary in
      let q = if is_control c then putch 127 t.write_q else t.write_q in
      if is_echo t.termios then write (record t { write_q = putch 127 q }) else t

  -- A character that goes.
  abbrev pub rub_out : Tty → Tty
  rub_out t = let u = echo_rub t in record u { secondary = drop_last u.secondary }

  -- The loop of KILL_CHAR. `secondary` has fewer than 1024 characters.
  unfoldable pub kill_line : ℕ → Tty → Tty
  kill_line zero t = t
  kill_line (suc n) t = let rest = kill_line n (rub_out t) in if at_start t then t else rest

  -- The four characters that L_CANON looks for. None: the character is another one.
  unfoldable pub edit_line : ℕ → Tty → Option Tty
  edit_line c t =
      if is_cc t.termios 3 c
      then some (kill_line 1024 t)
      else if is_cc t.termios 2 c
      then some (if at_start t then t else rub_out t)
      else if is_cc t.termios 9 c
      then some (record t { stopped = true })
      else if is_cc t.termios 8 c
      then some (record t { stopped = false })
      else none

  -- INTR_CHAR and QUIT_CHAR, with the masks of SIGINT and SIGQUIT.
  unfoldable pub interrupt : ℕ → Tty → Option Tty
  interrupt c t =
      if is_cc t.termios 0 c
      then some (tty_intr 2 t)
      else if is_cc t.termios 1 c
      then some (tty_intr 4 t)
      else none

  unfoldable pub echo_char : ℕ → Tty → Tty
  echo_char c t =
      if not (is_echo t.termios)
      then t
      else write (record t {
        write_q =
            if c == 10
            then putch 13 (putch 10 t.write_q)
            else if is_control c
            then if has_flag t.termios.c_lflag 0o1000
              then putch ((c + 64) % 2 ^ 8) (putch b'^' t.write_q)
              else t.write_q
            else putch c t.write_q;
      })

  -- What is left to do for a character that is none of these.
  unfoldable pub enter : ℕ → Tty → Tty
  enter c t =
      let q = t.secondary in
      let u : Tty = record t {
        secondary = if is_end t.termios c then record q { data_of = add32 q.data_of 1 } else q;
      } in
      let v = echo_char c u in record v { secondary = putch c v.secondary }

  unfoldable pub cook : ℕ → Tty → Tty
  cook c t = elim (input_char t.termios c) [
    | none ↦ t
    | some d ↦ elim (if is_canon t.termios then edit_line d t else none) as (λ x. Tty) [
      | some u ↦ u
      | none ↦ elim (if has_flag t.termios.c_lflag 1 then interrupt d t else none) as (λ x. Tty) [
        | some u ↦ u
        | none ↦ enter d t
      ]
    ]
  ]

  -- The loop of `copy_to_cooked`. A round takes a character from `read_q`, which has fewer than 1024.
  unfoldable pub cook_loop : ℕ → Tty → Tty
  cook_loop zero t = t
  cook_loop (suc n) t =
      let (c, q) = getch t.read_q in
      let rest = cook_loop n (cook c (record t { read_q = q })) in
      if is_empty t.read_q || is_full t.secondary then t else rest

  -- The `wake_up` at its end is that of Kernel/Wait.
  unfoldable pub copy_to_cooked : Tty → Tty
  copy_to_cooked t = cook_loop 1024 t
