-- ===== src/Chr/Terminal/Tests.antt =====
-- Runs of the line discipline, and the theorems on the console's terminal.
use linux_0_11_read.Prelude.{
  ℕ, ◌≡◌, refl, List, [], ◌∷◌, true, false, arith, Outcome, done, halted, get_or, replicate, none,
}
use linux_0_11_read.Chr.Terminal.{
  Queue, Termios, Tty, IsDriver, echo_rub, echo_char, is_empty, copy_to_cooked, cook_loop, cook,
  input_char, edit_line, kill_line, interrupt, enter,
}
use linux_0_11_read.Chr.Terminal.Read.{
  TtyReader, Writer, tty_read, tty_read_loop, read_round, read_chars, tty_write, write_loop,
  write_chars,
}
use linux_0_11_read.Chr.Terminal.Ring.{IsQueue, contents, waiting, newest, oldest}
use linux_0_11_read.Chr.Terminal.Editor.{typed_all, ends}
use linux_0_11_read.Chr.Terminal.Copy.{copy_to_cooked-typed}
use linux_0_11_read.Chr.Terminal.Lines.{HasLines}
use linux_0_11_read.Chr.Terminal.Reads.{start, typing, reading, Steps-HasLines, state_of}

-- The settings of the console: c_cc up to VSUSP.
abbrev console : Termios
console = record {
  c_iflag = 0o400;
  c_oflag = 5;
  c_lflag = 0o5013;
  c_cc = 3 ∷ 28 ∷ 127 ∷ 21 ∷ 4 ∷ 0 ∷ 1 ∷ 0 ∷ 17 ∷ 19 ∷ 26 ∷ [];
}

-- a, b, erase, c, return
abbrev keys : Queue
keys = record {
  data_of = 0;
  head = 5;
  tail = 0;
  buf = λ i. get_or (b'a' ∷ b'b' ∷ 127 ∷ b'c' ∷ 13 ∷ []) i 0;
}

abbrev terminal : Queue → Tty
terminal q = record {
  termios = console;
  pgrp = 0;
  stopped = false;
  read_q = q;
  write_q = record keys { head = 0 };
  secondary = record keys { head = 0 };
  processes = record { task = replicate 64 none; current = 0 };
}

-- What a driver does that has sent it all.
abbrev drain : Tty → Tty
drain t = record t { write_q = record t.write_q { tail = t.write_q.head } }

drain-IsDriver : IsDriver drain
drain-IsDriver = record { alike = λ t. record { settings = refl; input = refl; cooked = refl } }

line : contents (copy_to_cooked drain (terminal keys)).secondary ≡ 10 ∷ b'c' ∷ b'a' ∷ []
unfolding copy_to_cooked cook_loop cook input_char edit_line kill_line interrupt enter echo_rub
    echo_char newest
line = refl

abbrev answer : Outcome TtyReader (ℕ × List ℕ) → ℕ × List ℕ
answer (done a r) = a
answer (halted h r) = (0, [])

abbrev state : Outcome Writer ℕ → Writer
state (done n w) = w
state (halted h w) = w

-- The line is read up to its end, 10, and then the queue is empty.
bytes :
    answer
      (tty_read 0 80 (record { tty = copy_to_cooked drain (terminal keys); signal = 0; alarm = 7 }))
    ≡ (3, b'a' ∷ b'c' ∷ 10 ∷ [])
unfolding copy_to_cooked cook_loop cook input_char edit_line kill_line interrupt enter echo_rub
    echo_char tty_read tty_read_loop read_round read_chars
bytes = refl

-- A line feed goes out behind a return.
written :
    waiting
      (state (
        tty_write
          (λ t. t)
          (b'a' ∷ 10 ∷ [])
          (record { tty = terminal keys; cr_flag = false; signal = 0 }))).tty.write_q
    ≡ b'a' ∷ 13 ∷ 10 ∷ []
unfolding tty_write write_loop write_chars oldest
written = refl

keys-IsQueue : IsQueue keys
keys-IsQueue = record { head_in = omega arith; tail_in = omega arith }

empty-IsQueue : IsQueue (terminal keys).secondary
empty-IsQueue = record { head_in = omega arith; tail_in = omega arith }

copy_to_cooked-typed_example :
    (contents (copy_to_cooked drain (terminal keys)).secondary
      ≡ typed_all console (waiting keys) (contents (terminal keys).secondary))
    × (is_empty (copy_to_cooked drain (terminal keys)).read_q ≡ true)
copy_to_cooked-typed_example =
    copy_to_cooked-typed drain (terminal keys) drain-IsDriver keys-IsQueue empty-IsQueue
      (omega arith)

no_lines : HasLines console (terminal keys).secondary
unfolding ends newest
no_lines = record { queue = empty-IsQueue; counted = refl }

abbrev after : Tty
after =
    (state_of (
      tty_read 0 2 (record {
        tty = copy_to_cooked drain (record (terminal keys) { read_q = keys });
        signal = 0;
        alarm = 0;
      }))).tty

Steps-HasLines_example : HasLines after.termios after.secondary
Steps-HasLines_example =
    Steps-HasLines drain (terminal keys) after drain-IsDriver no_lines
      (reading 0 2 0 0 (typing keys start))
