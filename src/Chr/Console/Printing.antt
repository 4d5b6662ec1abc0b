-- ===== src/Chr/Console/Printing.antt =====
-- The characters that are not in an escape sequence keep the layout.
use linux_0_11_read.Prelude.{
  ℕ, ◌+◌, ◌-◌, ◌*◌, ◌%◌, ◌^◌, ◌<◌, ◌≡◌, inl, inr, arith, Bool, true, false, ltb, leb, if◌then◌else◌,
  add32, sub32, length, Bool-cases, List,
}
use linux_0_11_read.Chr.Console.{Console, n_par, store, scrup, lf, respond, sysbeep}
use linux_0_11_read.Chr.Console.Write.{next_line, print_char, tab, backspace, plain}
use linux_0_11_read.Chr.Console.Layout.{IsLaid, IsSafe, rows-le, cr-IsSafe, del-IsSafe}
use linux_0_11_read.Chr.Console.Scroll.{IsSafe-refl, IsSafe-trans, lf-IsSafe}

-- A line feed keeps the column.
lf_column : (s : Console) → (lf s).x ≡ s.x
unfolding lf scrup
lf_column s = ground arith

-- The cursor is less than a line behind the last column.
wrapped : Console → Console
wrapped s = record s { x = sub32 s.x s.num_columns; pos = sub32 s.pos s.size_row }

print_there :
    (s : Console) (c : ℕ)
    → IsLaid s
    → s.x < s.num_columns
    → IsSafe s (record s {
      word = store s.pos (s.attr * 2 ^ 8 + c) s.word;
      pos = add32 s.pos 2;
      x = add32 s.x 1;
    })
print_there s c v h = ground (arith, v, h, rows-le s.y s.num_lines s.size_row v.line)

print_char-IsSafe : (c : ℕ) (s : Console) → IsLaid s → IsSafe s (print_char c s)
unfolding print_char wrapped
print_char-IsSafe c s v = elim (Bool-cases (leb s.num_columns s.x)) [
  | inr h ↦ rw h (print_there s c v (ground (arith, h)))
  | inl h ↦
      let back : IsSafe s (wrapped s) =
        ground (arith, v, h, rows-le s.y s.num_lines s.size_row v.line) in
      let next = IsSafe-trans back (lf-IsSafe (wrapped s) back.laid) in
      rw h (
        IsSafe-trans next (
          print_there (next_line s) c next.laid (
            ground (
              arith,
              h,
              v,
              lf_column (wrapped s),
              (lf-IsSafe (wrapped s) back.laid).same_columns,
            ))))
]

stopped : Console → Console
stopped s = record s { x = add32 s.x (8 - s.x % 8); pos = add32 s.pos (2 * (8 - s.x % 8)) }

tab-IsSafe : (s : Console) → IsLaid s → IsSafe s (tab s)
unfolding tab wrapped stopped
tab-IsSafe s v = elim (Bool-cases (ltb s.num_columns (stopped s).x)) [
  | inr h ↦ rw h (ground (arith, v, h, rows-le s.y s.num_lines s.size_row v.line))
  | inl h ↦
      let back : IsSafe s (wrapped (stopped s)) =
        ground (arith, v, h, rows-le s.y s.num_lines s.size_row v.line) in
      rw h (IsSafe-trans back (lf-IsSafe (wrapped (stopped s)) back.laid))
]

backspace-IsSafe : (s : Console) → IsLaid s → IsSafe s (backspace s)
unfolding backspace
backspace-IsSafe s v = ground (arith, v, rows-le s.y s.num_lines s.size_row v.line)

-- One branch or the other.
pub if_IsSafe :
    (b : Bool) {s t u : Console} → IsSafe s t → IsSafe s u → IsSafe s (if b then t else u)
if_IsSafe true p q = p
if_IsSafe false p q = q

-- The fields that the parser alone uses.
abbrev pub parsed : Console → ℕ → ℕ → List ℕ → Bool → Console
parsed s state npar par ques = record s { state = state; npar = npar; par = par; ques = ques }

pub parsed-IsSafe :
    (s : Console) (state npar : ℕ) (par : List ℕ) (ques : Bool)
    → IsLaid s
    → length par ≡ n_par
    → npar < n_par
    → IsSafe s (parsed s state npar par ques)
parsed-IsSafe s state npar par ques v size last = ground (arith, v, size, last)

pub state-IsSafe : (s : Console) (n : ℕ) → IsLaid s → IsSafe s (record s { state = n })
state-IsSafe s n v = parsed-IsSafe s n s.npar s.par s.ques v v.params v.last_param

sysbeep-IsSafe : (s : Console) → IsLaid s → IsSafe s (sysbeep s)
sysbeep-IsSafe s v = ground (arith, v)

pub respond-IsSafe : (s : Console) → IsLaid s → IsSafe s (respond s)
respond-IsSafe s v = ground (arith, v)

pub plain-IsSafe : (erase c : ℕ) (s : Console) → IsLaid s → IsSafe s (plain erase c s)
unfolding plain
plain-IsSafe erase c s v = if_IsSafe _ (print_char-IsSafe c s v) (
    if_IsSafe _ (state-IsSafe s 1 v) (
      if_IsSafe _ (lf-IsSafe s v) (
        if_IsSafe _ (cr-IsSafe s v) (
          if_IsSafe _ (del-IsSafe s v) (
            if_IsSafe _ (backspace-IsSafe s v) (
              if_IsSafe _ (tab-IsSafe s v)
                (if_IsSafe _ (sysbeep-IsSafe s v) (IsSafe-refl s v))))))))
