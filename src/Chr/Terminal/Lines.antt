-- ===== src/Chr/Terminal/Lines.antt =====
-- `data` of the queue of cooked characters counts the lines in it.
use linux_0_11_read.Prelude.{
  ℕ, zero, suc, ◌+◌, ◌-◌, ◌%◌, ◌<◌, ◌≡◌, inl, inr, ap, sym, false, ◌==◌, ◌||◌, ◌&&◌, if◌then◌else◌,
  arith, Bool-cases, sub32,
}
use linux_0_11_read.Chr.Terminal.{
  Queue, Termios, dec, is_empty, chars, getch, is_end, is_eof, is_canon,
}
use linux_0_11_read.Chr.Terminal.Read.{read_chars}
use linux_0_11_read.Chr.Terminal.Ring.{
  IsQueue, contents, newest, length-newest, chars-getch, chars-lt, getch-IsQueue,
}
use linux_0_11_read.Chr.Terminal.Editor.{ends, ends-le}

pub record HasLines (tm : Termios) (q : Queue) : Type 0 where
  pub queue : IsQueue q
  pub counted : q.data_of ≡ ends tm (contents q)

-- The oldest character comes last.
ends-oldest :
    (tm : Termios) (n head tail : ℕ) (buf : ℕ → ℕ)
    → head < 1024
    → tail < 1024
    → suc n ≡ (head + 1024 - tail) % 1024
    → ends tm (newest (suc n) head buf)
      ≡ ends tm (newest n head buf) + (if is_end tm (buf tail) then 1 else 0)
unfolding ends newest
ends-oldest tm zero head tail buf hh ht e = ground (arith, ap buf at_tail)
  where
    at_tail : dec head ≡ tail
    at_tail = omega (arith, hh, ht, e)
ends-oldest tm (suc n) head tail buf hh ht e =
    omega (arith, ends-oldest tm n (dec head) tail buf (omega arith) ht (omega (arith, hh, ht, e)))

getch-HasLines :
    (tm : Termios) (q : Queue)
    → HasLines tm q
    → is_empty q ≡ false
    → HasLines tm (
        if is_end tm (getch q).0
        then record (getch q).1 { data_of = sub32 q.data_of 1 }
        else (getch q).1)
getch-HasLines tm q v h = elim (Bool-cases (is_end tm (getch q).0)) [
  | inl at_end ↦ rw at_end (record {
    queue = record { head_in = v.queue.head_in; tail_in = omega arith };
    counted = ground (arith, v.counted, at_end, split, small);
  })
  | inr inside ↦ rw inside (record {
    queue = getch-IsQueue q v.queue;
    counted = ground (arith, v.counted, inside, split);
  })
]
  where
    one_less : chars q ≡ suc (chars (getch q).1)
    one_less = chars-getch q v.queue h

    split :
        ends tm (contents q)
        ≡ ends tm (contents (getch q).1) + (if is_end tm (getch q).0 then 1 else 0)
    split = rw one_less (
        ends-oldest tm (chars (getch q).1) q.head q.tail q.buf v.queue.head_in v.queue.tail_in
          (ground (arith, sym one_less, v.queue)))

    small : ends tm (contents q) < 1024
    small = omega (arith, ends-le tm (contents q), length-newest (chars q) q.head q.buf, chars-lt q)

pub read_chars-HasLines :
    (tm : Termios) (nr : ℕ) (q : Queue)
    → HasLines tm q
    → is_empty q ≡ false
    → HasLines tm (read_chars tm nr q).1
unfolding read_chars
read_chars-HasLines tm zero q v h = v
read_chars-HasLines tm (suc nr) q v h = elim (Bool-cases (is_eof tm (getch q).0 && is_canon tm)) [
  | inl eof ↦ rw eof next
  | inr more ↦ elim (Bool-cases ((nr == 0) || is_empty taken)) [
    | inl last_one ↦ rw (more, last_one) next
    | inr goes_on ↦
        rw (more, goes_on) (read_chars-HasLines tm nr taken next (ground (arith, goes_on)))
  ]
]
  where
    taken : Queue
    taken =
        if is_end tm (getch q).0
        then record (getch q).1 { data_of = sub32 q.data_of 1 }
        else (getch q).1

    next : HasLines tm taken
    next = getch-HasLines tm q v h
