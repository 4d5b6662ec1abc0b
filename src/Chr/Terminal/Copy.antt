-- ===== src/Chr/Terminal/Copy.antt =====
-- `copy_to_cooked` types all of its input.
use linux_0_11_read.Prelude.{
  ℕ, zero, suc, ◌+◌, ◌≤◌, ◌<◌, ◌≡◌, inl, inr, refl, ap, List, [], ◌∷◌, length, true, arith,
  Bool-cases, Option-cases,
}
use linux_0_11_read.Chr.Terminal.{
  Termios, Tty, IsDriver, is_empty, chars, getch, input_char, cook, cook_loop, copy_to_cooked,
}
use linux_0_11_read.Chr.Terminal.Ring.{
  IsQueue, contents, waiting, oldest, length-newest, chars-getch, chars-lt, room, chars-empty,
  waiting-getch, getch-IsQueue,
}
use linux_0_11_read.Chr.Terminal.Editor.{without_line, without_last, typed, typed_all}
use linux_0_11_read.Chr.Terminal.Cooked.{cook-Holds}

length-without_line : (tm : Termios) (text : List ℕ) → length (without_line tm text) ≤ length text
unfolding without_line
length-without_line tm [] = omega arith
length-without_line tm (c ∷ text) = ground (arith, length-without_line tm text)

length-without_last : (tm : Termios) (text : List ℕ) → length (without_last tm text) ≤ length text
unfolding without_last
length-without_last tm [] = omega arith
length-without_last tm (c ∷ text) = ground arith

length-typed : (tm : Termios) (c : ℕ) (text : List ℕ) → length (typed tm c text) ≤ suc (length text)
unfolding typed
length-typed tm c text = elim (Option-cases (input_char tm c)) [
  | inl h ↦ rw (h, typed) (omega arith)
  | inr (d, h) ↦
      rw (h, typed) (ground (arith, length-without_line tm text, length-without_last tm text))
]

module _ (write : Tty → Tty) (driver : IsDriver write) where
  cook_loop-typed :
      (n : ℕ) (t : Tty) (text : List ℕ)
      → IsQueue t.read_q
      → IsQueue t.secondary
      → contents t.secondary ≡ text
      → chars t.read_q < n
      → length text + chars t.read_q < 1023
      → (contents (cook_loop write n t).secondary ≡ typed_all t.termios (waiting t.read_q) text)
        × (is_empty (cook_loop write n t).read_q ≡ true)
  unfolding cook_loop typed_all oldest cook
  cook_loop-typed zero t text vr vs e less fit = absurd (omega (arith, less))
  cook_loop-typed (suc n) t text vr vs e less fit = elim (Bool-cases (is_empty t.read_q)) [
    | inl h ↦ rw (h, chars-empty t.read_q h) (e, h)
    | inr h ↦
        let c = (getch t.read_q).0 in
        let u : Tty = record t { read_q = (getch t.read_q).1 } in
        let free = room t.secondary vs small in
        let k = cook-Holds write driver c u text vs free e (omega (arith, fit)) in
        let count = chars-getch t.read_q vr h in
        let ih =
          cook_loop-typed n (cook write c u) (typed t.termios c text)
            (rw k.input (getch-IsQueue t.read_q vr)) k.queue k.text_of
            (rw k.input (omega (arith, less, count)))
            (rw k.input (omega (arith, fit, count, length-typed t.termios c text))) in
        rw (h, free, waiting-getch t.read_q vr h) (rw (k.settings, k.input) at ih)
  ]
    where
      small : chars t.secondary < 1023
      small = omega (
        arith,
        fit,
        ap length e,
        length-newest (chars t.secondary) t.secondary.head t.secondary.buf,
      )

-- For a driver that changes neither the settings of the terminal nor its two queues of input, as
-- that of the serial line, and whatever the settings, copy_to_cooked types all of its input: when
-- the queue of cooked characters has room for the raw ones, it holds afterwards what an editor of
-- a list makes of them, in which the kill and the erase character go back to the last end of a
-- line at most and are not kept, nor are those that stop, start or interrupt; and the raw queue is
-- empty.
pub copy_to_cooked-typed :
    (write : Tty → Tty) (t : Tty)
    → IsDriver write
    → IsQueue t.read_q
    → IsQueue t.secondary
    → chars t.secondary + chars t.read_q < 1023
    → (contents (copy_to_cooked write t).secondary
        ≡ typed_all t.termios (waiting t.read_q) (contents t.secondary))
      × (is_empty (copy_to_cooked write t).read_q ≡ true)
unfolding copy_to_cooked
copy_to_cooked-typed write t driver vr vs fit =
    cook_loop-typed write driver 1024 t (contents t.secondary) vr vs refl (chars-lt t.read_q)
      (omega (arith, fit, length-newest (chars t.secondary) t.secondary.head t.secondary.buf))
