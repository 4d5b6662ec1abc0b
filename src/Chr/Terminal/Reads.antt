-- ===== src/Chr/Terminal/Reads.antt =====
-- `data` counts the lines, whatever is typed and read.
use linux_0_11_read.Prelude.{
  ℕ, zero, suc, ◌%◌, ◌/◌, ◌^◌, ◌<◌, ◌≡◌, inl, inr, refl, ap, ◌∙◌, sym, List, [], ◌++◌, length, Bool,
  true, false, not, ◌==◌, ◌||◌, ◌&&◌, if◌then◌else◌, ltb, leb, arith, Bool-cases, Kernel, Outcome,
  done, halted, is_neg,
}
use linux_0_11_read.Chr.Terminal.{
  Queue, Tty, IsDriver, is_empty, is_full, left, chars, getch, is_canon, cook, cook_loop,
  copy_to_cooked,
}
use linux_0_11_read.Chr.Terminal.Read.{
  TtyReader, Limits, read_chars, read_round, tty_read_loop, tty_read,
}
use linux_0_11_read.Chr.Terminal.Ring.{contents, length-newest, chars-lt}
use linux_0_11_read.Chr.Terminal.Editor.{ends, typed}
use linux_0_11_read.Chr.Terminal.Cooked.{Holds, cook-Holds}
use linux_0_11_read.Chr.Terminal.Lines.{HasLines, read_chars-HasLines}

-- The lines of the terminal are counted.
abbrev pub IsCounted : Tty → Type 0
IsCounted t = HasLines t.termios t.secondary

module _ (write : Tty → Tty) (driver : IsDriver write) where
  cook-IsCounted :
      (c : ℕ) (t : Tty) → is_full t.secondary ≡ false → IsCounted t → IsCounted (cook write c t)
  cook-IsCounted c t room v = record {
    queue = k.queue;
    counted =
        k.lines v.counted
        ∙ sym (ap (ends t.termios) k.text_of)
        ∙ ap (λ m. ends m (contents (cook write c t).secondary)) (sym k.settings);
  }
    where
      text : List ℕ
      text = contents t.secondary

      small : length text < 1024
      small = omega (
        arith,
        length-newest (chars t.secondary) t.secondary.head t.secondary.buf,
        chars-lt t.secondary,
      )

      k : Holds t (typed t.termios c text) (cook write c t)
      k = cook-Holds write driver c t text v.queue room refl small

  cook_loop-IsCounted : (n : ℕ) (t : Tty) → IsCounted t → IsCounted (cook_loop write n t)
  unfolding cook_loop
  cook_loop-IsCounted zero t v = v
  cook_loop-IsCounted (suc n) t v = elim (Bool-cases (is_empty t.read_q || is_full t.secondary)) [
    | inl h ↦ rw (h, cook_loop) v
    | inr h ↦
        rw (h, cook_loop)
          (cook_loop-IsCounted n (cook write c u) (cook-IsCounted c u (ground (arith, h)) v))
  ]
    where
      c : ℕ
      c = (getch t.read_q).0

      u : Tty
      u = record t { read_q = (getch t.read_q).1 }

-- The state in which a call ends.
abbrev pub state_of : Outcome TtyReader (ℕ × List ℕ) → TtyReader
state_of (done a r) = r
state_of (halted h r) = r

record Ends (o : Outcome TtyReader (ℕ × List ℕ)) : Type 0 where
  at_end : IsCounted (state_of o).tty

read_round-Ends :
    (l : Limits) (next : ℕ → Bool → List ℕ → Kernel TtyReader (ℕ × List ℕ)) (nr : ℕ) (flag : Bool)
    (got : List ℕ) (r : TtyReader)
    → ((nr : ℕ) (flag : Bool) (got : List ℕ) (r : TtyReader)
        → IsCounted r.tty
        → Ends (next nr flag got r))
    → IsCounted r.tty
    → Ends (read_round l next nr flag got r)
unfolding read_round
read_round-Ends l next nr flag got r later v = elim (Bool-cases (nr == 0)) [
  | inl h0 ↦ rw (h0, read_round) (record { at_end = v })
  | inr h0 ↦ elim (Bool-cases (flag && (r.signal / 2 ^ 13 % 2 == 1))) [
    | inl h1 ↦ rw (h0, h1, read_round) (record { at_end = v })
    | inr h1 ↦ elim (Bool-cases (not (r.signal == 0))) [
      | inl h2 ↦ rw (h0, h1, h2, read_round) (record { at_end = v })
      | inr h2 ↦ elim (Bool-cases (asleep_now)) [
        | inl h3 ↦ rw (h0, h1, h2, h3, read_round) (record { at_end = v })
        | inr h3 ↦ elim (Bool-cases ((read_chars r.tty.termios nr r.tty.secondary).2)) [
          | inl h4 ↦
              rw (h0, h1, h2, h3, h4, read_round) (record { at_end = taken (ground (arith, h3)) })
          | inr h4 ↦ elim (Bool-cases (is_canon r.tty.termios)) [
            | inl h5 ↦
                elim (Bool-cases
                  (length (got ++ (read_chars r.tty.termios nr r.tty.secondary).0) == 0)) [
                    | inl h6 ↦
                        rw (h0, h1, h2, h3, h4, h5, h6, read_round)
                          (later _ _ _ _ (taken (ground (arith, h3))))
                    | inr h6 ↦
                        rw (h0, h1, h2, h3, h4, h5, h6, read_round)
                          (record { at_end = taken (ground (arith, h3)) })
                  ]
            | inr h5 ↦
                elim (Bool-cases (
                  leb l.minimum
                    (length (got ++ (read_chars r.tty.termios nr r.tty.secondary).0)))) [
                      | inl h6 ↦
                          rw (h0, h1, h2, h3, h4, h5, h6, read_round)
                            (record { at_end = taken (ground (arith, h3)) })
                      | inr h6 ↦
                          rw (h0, h1, h2, h3, h4, h5, h6, read_round)
                            (later _ _ _ _ (taken (ground (arith, h3))))
                    ]
          ]
        ]
      ]
    ]
  ]
]
  where
    asleep_now : Bool
    asleep_now =
        is_empty r.tty.secondary
        || (is_canon r.tty.termios
            && (r.tty.secondary.data_of == 0)
            && ltb 20 (left r.tty.secondary))

    taken :
        is_empty r.tty.secondary ≡ false
        → HasLines r.tty.termios (read_chars r.tty.termios nr r.tty.secondary).1
    taken h = read_chars-HasLines r.tty.termios nr r.tty.secondary v h

tty_read_loop-Ends :
    (l : Limits) (n nr : ℕ) (flag : Bool) (got : List ℕ) (r : TtyReader)
    → IsCounted r.tty
    → Ends (tty_read_loop l n nr flag got r)
unfolding tty_read_loop
tty_read_loop-Ends l zero nr flag got r v = record { at_end = v }
tty_read_loop-Ends l (suc n) nr flag got r v =
    read_round-Ends l _ nr flag got r (tty_read_loop-Ends l n) v

-- A terminal in use: characters come into `read_q` and are typed, and processes read.
pub data Steps (write : Tty → Tty) : Tty → Tty → Type 0 where
  start : {t : Tty} → Steps write t t
  typing :
      {t u : Tty}
      → (q : Queue) → Steps write t u
      → Steps write t (copy_to_cooked write (record u { read_q = q }))
  reading :
      {t u : Tty}
      → (jiffies nr signal alarm : ℕ) → Steps write t u
      → Steps write t
          (state_of (tty_read jiffies nr (record { tty = u; signal = signal; alarm = alarm }))).tty

with_alarm :
    (b : Bool) (a : ℕ) (r : TtyReader)
    → IsCounted r.tty
    → IsCounted (if b then record r { alarm = a } else r).tty
with_alarm true a r v = v
with_alarm false a r v = v

tty_read-Ends : (jiffies nr : ℕ) (r : TtyReader) → IsCounted r.tty → Ends (tty_read jiffies nr r)
unfolding tty_read
tty_read-Ends jiffies nr r v = elim (Bool-cases (is_neg nr)) [
  | inl h ↦ rw (h, tty_read) (record { at_end = v })
  | inr h ↦ rw (h, tty_read) (tty_read_loop-Ends _ nr nr _ [] _ (with_alarm _ _ r v))
]

-- For a driver that changes neither the settings of the terminal nor its two queues of input, as
-- that of the serial line, while the keyboard fills the raw queue in any way, copy_to_cooked types
-- it and processes read, in any order, data of the queue of cooked characters stays the number of
-- the ends of lines in it, if it was at the start.
pub Steps-HasLines :
    (write : Tty → Tty) (t u : Tty)
    → IsDriver write
    → HasLines t.termios t.secondary
    → Steps write t u
    → HasLines u.termios u.secondary
unfolding copy_to_cooked
Steps-HasLines write t _ driver v start = v
Steps-HasLines write t _ driver v (typing q s) =
    cook_loop-IsCounted write driver 1024 _ (Steps-HasLines write t _ driver v s)
Steps-HasLines write t _ driver v (reading jiffies nr signal alarm s) =
    (tty_read-Ends jiffies nr _ (Steps-HasLines write t _ driver v s)).at_end
