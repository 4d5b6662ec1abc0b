-- ===== src/Chr/Terminal/Read.antt =====
-- kernel/chr_drv/tty_io.c: `tty_read` and `tty_write`. The channel is one of the three terminals; a
-- call that sleeps, or that waits for the end of a line without sleeping, ends there.
use linux_0_11_read.Prelude.{
  ℕ, zero, suc, ◌-◌, ◌*◌, ◌/◌, ◌%◌, ◌^◌, List, [], ◌∷◌, ◌++◌, Bool, true, false, not, ◌&&◌, ◌||◌,
  ◌==◌, ltb, leb, slt, if◌then◌else◌, add32, sub32, neg32, minus_one, is_neg, get_or, length,
  Kernel, done, halted, asleep,
}
use linux_0_11_read.Kernel.Process.{clear_bit}
use linux_0_11_read.Chr.Terminal.{
  Queue, Termios, Tty, is_empty, is_full, left, getch, putch, has_flag, is_canon, is_end, is_eof,
}

-- The loop `do ... while (nr>0 && !EMPTY(tty->secondary))`, for `nr` of at least 1: the bytes for the
-- user, and whether EOF_CHAR ends the call.
unfoldable pub read_chars : Termios → ℕ → Queue → List ℕ × Queue × Bool
read_chars tm zero q = ([], q, false)
read_chars tm (suc nr) q =
    let (c, q1) = getch q in
    let q2 = if is_end tm c then record q1 { data_of = sub32 q1.data_of 1 } else q1 in
    let (bytes, q3, eof) = read_chars tm nr q2 in
    if is_eof tm c && is_canon tm
    then ([], q2, true)
    else if (nr == 0) || is_empty q2
    then (c ∷ [], q2, false)
    else (c ∷ bytes, q3, eof)

-- `signal` and `alarm` of the current process.
pub record TtyReader : Type 0 where
  pub tty : Tty
  pub signal : ℕ
  pub alarm : ℕ

abbrev pub eintr : ℕ
eintr = neg32 4

-- The end of `tty_read`: the result, and the bytes for the user.
abbrev pub read_done : ℕ → List ℕ → Kernel TtyReader (ℕ × List ℕ)
read_done oldalarm got r =
    let s = record r { alarm = oldalarm } in
    done (if not (r.signal == 0) && (length got == 0) then eintr else length got, got) s

-- Whether the call sets the alarm: `!oldalarm || time+jiffies<oldalarm`.
abbrev pub is_sooner : ℕ → ℕ → ℕ → Bool
is_sooner time jiffies oldalarm = (oldalarm == 0) || slt (add32 time jiffies) oldalarm

-- `minimum`, `time`, `jiffies` and `oldalarm` do not change in the loop.
pub record Limits : Type 0 where
  pub minimum : ℕ
  pub time : ℕ
  pub jiffies : ℕ
  pub oldalarm : ℕ

-- A round of the loop `while (nr>0)`, with `flag` and the bytes so far. `next` is what comes after it.
unfoldable pub read_round :
    Limits
    → (ℕ → Bool → List ℕ → Kernel TtyReader (ℕ × List ℕ))
    → ℕ
    → Bool
    → List ℕ
    → Kernel TtyReader (ℕ × List ℕ)
read_round l next nr flag got r =
    let t = r.tty in
    let canon = is_canon t.termios in
    let (bytes, q, eof) = read_chars t.termios nr t.secondary in
    let timed = not (l.time == 0) && not canon in
    let sooner = is_sooner l.time l.jiffies l.oldalarm in
    let s = record r {
      tty = record t { secondary = q };
      alarm = if timed then if sooner then add32 l.time l.jiffies else l.oldalarm else r.alarm;
    } in
    let have = got ++ bytes in
    let rest = next (nr - length bytes) (if timed then sooner else flag) have s in
    if nr == 0
    then read_done l.oldalarm got r
    else if flag && (r.signal / 2 ^ 13 % 2 == 1)
    then read_done l.oldalarm got (record r { signal = clear_bit r.signal 13 })
    else if not (r.signal == 0)
    then read_done l.oldalarm got r
    else if is_empty t.secondary
        || (canon && (t.secondary.data_of == 0) && ltb 20 (left t.secondary))
    then halted asleep r
    else if eof
    then done (length have, have) (record r { tty = record t { secondary = q } })
    else if canon
    then if length have == 0 then rest else read_done l.oldalarm have s
    else if leb l.minimum (length have)
    then read_done l.oldalarm have s
    else rest

-- The loop. A round takes a byte at least, so that `nr` rounds are enough.
unfoldable pub tty_read_loop : Limits → ℕ → ℕ → Bool → List ℕ → Kernel TtyReader (ℕ × List ℕ)
tty_read_loop l zero nr flag got r = read_done l.oldalarm got r
tty_read_loop l (suc rounds) nr flag got r = read_round l (tty_read_loop l rounds) nr flag got r

-- `time && !minimum` sets an alarm before the first round.
unfoldable pub tty_read : ℕ → ℕ → Kernel TtyReader (ℕ × List ℕ)
tty_read jiffies nr r =
    let tm = r.tty.termios in
    let time = 10 * get_or tm.c_cc 5 0 in
    let minimum = get_or tm.c_cc 6 0 in
    let waits = not (time == 0) && (minimum == 0) in
    let flag = waits && is_sooner time jiffies r.alarm in
    let least = if waits then 1 else minimum in
    let l : Limits = record {
      minimum = if ltb nr least then nr else least;
      time = time;
      jiffies = jiffies;
      oldalarm = r.alarm;
    } in
    if is_neg nr
    then done (minus_one, []) r
    else tty_read_loop l nr nr flag [] (if flag then record r { alarm = add32 time jiffies } else r)

abbrev pub to_upper : ℕ → ℕ
to_upper c = if leb b'a' c && leb c b'z' then c - 32 else c

-- What the output flags make of a character: the two translations in a row.
abbrev pub post : Termios → ℕ → ℕ
post tm c =
    if (c == 13) && has_flag tm.c_oflag 0o10
    then 10
    else if (c == 10) && has_flag tm.c_oflag 0o40
    then 13
    else c

-- The inner loop of `tty_write`, on the bytes that are left, with `cr_flag`. A byte takes two rounds
-- at most.
unfoldable pub write_chars : ℕ → Termios → Bool → List ℕ → Queue → List ℕ × Bool × Queue
write_chars zero tm cr bytes q = (bytes, cr, q)
write_chars (suc n) tm cr [] q = ([], cr, q)
write_chars (suc n) tm cr (b ∷ bytes) q =
    let c = if has_flag tm.c_oflag 1 then post tm b else b in
    let out = if has_flag tm.c_oflag 1 && has_flag tm.c_oflag 2 then to_upper c else c in
    let first = write_chars n tm true (b ∷ bytes) (putch 13 q) in
    let next = write_chars n tm false bytes (putch out q) in
    if is_full q
    then (b ∷ bytes, cr, q)
    else if has_flag tm.c_oflag 1 && (c == 10) && not cr && has_flag tm.c_oflag 4
    then first
    else next

-- `cr_flag` is static; `signal` is that of the current process.
pub record Writer : Type 0 where
  pub tty : Tty
  pub cr_flag : Bool
  pub signal : ℕ

-- The loop `while (nr>0)` of `tty_write`, on the bytes that are left; `schedule` changes nothing here.
-- The result is the number of these bytes. A round puts a character into the queue at least.
unfoldable pub write_loop : (Tty → Tty) → ℕ → List ℕ → Kernel Writer ℕ
write_loop write zero bytes w = done (length bytes) w
write_loop write (suc n) bytes w =
    let t = w.tty in
    let (left_over, cr, q) = write_chars (2 * length bytes) t.termios w.cr_flag bytes t.write_q in
    let rest =
      write_loop write n left_over
        (record w { tty = write (record t { write_q = q }); cr_flag = cr }) in
    if length bytes == 0
    then done 0 w
    else if is_full t.write_q && (w.signal == 0)
    then halted asleep w
    else if not (w.signal == 0)
    then done (length bytes) w
    else rest

unfoldable pub tty_write : (Tty → Tty) → List ℕ → Kernel Writer ℕ
tty_write write bytes w = elim (write_loop write (suc (2 * length bytes)) bytes w) [
  | done rest v ↦ done (length bytes - rest) v
  | halted h v ↦ halted h v
]
