-- ===== src/Chr/Terminal/Editor.antt =====
-- What is typed, as the work of an editor on a list of characters, the newest first.
use linux_0_11_read.Prelude.{
  ℕ, ◌+◌, ◌≤◌, List, [], ◌∷◌, none, some, length, Bool, true, ◌||◌, ◌&&◌, if◌then◌else◌, arith,
}
use linux_0_11_read.Chr.Terminal.{Termios, has_flag, is_canon, is_cc, is_end, input_char}

-- The line is empty: nothing since the last end of a line.
unfoldable pub starts_line : Termios → List ℕ → Bool
starts_line tm [] = true
starts_line tm (c ∷ text) = is_end tm c

unfoldable pub without_line : Termios → List ℕ → List ℕ
without_line tm [] = []
without_line tm (c ∷ text) =
    let rest = without_line tm text in if is_end tm c then c ∷ text else rest

unfoldable pub without_last : Termios → List ℕ → List ℕ
without_last tm [] = []
without_last tm (c ∷ text) = if is_end tm c then c ∷ text else text

-- What one character does to the text.
unfoldable pub typed : Termios → ℕ → List ℕ → List ℕ
typed tm c text = elim (input_char tm c) [
  | none ↦ text
  | some d ↦
      if is_canon tm && is_cc tm 3 d
      then without_line tm text
      else if is_canon tm && is_cc tm 2 d
      then without_last tm text
      else if is_canon tm && (is_cc tm 9 d || is_cc tm 8 d)
      then text
      else if has_flag tm.c_lflag 1 && (is_cc tm 0 d || is_cc tm 1 d)
      then text
      else d ∷ text
]

unfoldable pub typed_all : Termios → List ℕ → List ℕ → List ℕ
typed_all tm [] text = text
typed_all tm (c ∷ input) text = typed_all tm input (typed tm c text)

-- The ends of lines in a text.
unfoldable pub ends : Termios → List ℕ → ℕ
ends tm [] = 0
ends tm (c ∷ text) = (if is_end tm c then 1 else 0) + ends tm text

pub ends-le : (tm : Termios) (text : List ℕ) → ends tm text ≤ length text
unfolding ends
ends-le tm [] = omega arith
ends-le tm (c ∷ text) = ground (arith, ends-le tm text)
