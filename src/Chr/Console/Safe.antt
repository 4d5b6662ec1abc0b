-- ===== src/Chr/Console/Safe.antt =====
-- `con_write` writes to the screen alone, and keeps the cursor on it.
use linux_0_11_read.Prelude.{
  ℕ, ◌+◌, ◌*◌, ◌^◌, ◌≤◌, ◌<◌, ◌≡◌, arith, false, ◌||◌, ltb, leb, length, List, [], ◌∷◌,
}
use linux_0_11_read.Chr.Console.{Console, n_par, gotoxy}
use linux_0_11_read.Chr.Console.Write.{put_char, put_chars, con_write, Setup, display, con_init}
use linux_0_11_read.Chr.Console.Layout.{IsLaid, IsSafe, rows-le}
use linux_0_11_read.Chr.Console.Scroll.{IsSafe-refl, IsSafe-trans}
use linux_0_11_read.Chr.Console.Printing.{if_IsSafe, plain-IsSafe}
use linux_0_11_read.Chr.Console.Sequences.{
  escape-IsSafe, command-IsSafe, param-IsSafe, first_param-IsSafe,
}

put_char-IsSafe : (erase c : ℕ) (s : Console) → IsLaid s → IsSafe s (put_char erase c s)
unfolding put_char
put_char-IsSafe erase c s v = if_IsSafe _ (plain-IsSafe erase c s v) (
    if_IsSafe _ (escape-IsSafe c s v) (
      if_IsSafe _ (first_param-IsSafe c s v)
        (if_IsSafe _ (param-IsSafe c s v) (if_IsSafe _ (command-IsSafe c s v) (IsSafe-refl s v)))))

put_chars-IsSafe :
    (erase : ℕ) (cs : List ℕ) (s : Console) → IsLaid s → IsSafe s (put_chars erase cs s)
unfolding put_chars
put_chars-IsSafe erase [] s v = IsSafe-refl s v
put_chars-IsSafe erase (c ∷ cs) s v =
    let first = put_char-IsSafe erase c s v in
    IsSafe-trans first (put_chars-IsSafe erase cs (put_char erase c s) first.laid)

-- Whatever characters con_write gets, in whatever state of the escape sequences, it keeps the
-- layout, in which the cursor is on the screen, its address is that of its line and column, the
-- screen is in the video memory and the parameters are in their array; and it changes no word of
-- the memory outside the video memory, its size or that of the screen. It holds for a screen of 8
-- to 255 columns, of two bytes each, and of less than 256 lines.
pub con_write-IsSafe :
    (erase : ℕ) (write_q : List ℕ) (s : Console) → IsLaid s → IsSafe s (con_write erase write_q s)
unfolding con_write
con_write-IsSafe erase write_q s v =
    let k = put_chars-IsSafe erase write_q s v in
    record {
      laid = ground (arith, k.laid);
      same_start = k.same_start;
      same_end = k.same_end;
      same_columns = k.same_columns;
      same_lines = k.same_lines;
      outside = k.outside;
    }

display_window :
    (setup : Setup)
    → ((display setup).1 + 0x2000 ≤ (display setup).2) × ((display setup).2 ≤ 2 ^ 20)
display_window setup = ground arith

-- The layout after `con_init`, if setup.s left a cursor on a screen that is not too wide.
pub con_init-IsLaid :
    (setup : Setup) (s : Console)
    → 8 ≤ setup.video_cols
    → setup.video_cols ≤ 160
    → setup.orig_x ≤ setup.video_cols
    → setup.orig_y < 25
    → length s.par ≡ n_par
    → s.npar < n_par
    → IsLaid (con_init setup s)
unfolding con_init gotoxy
con_init-IsLaid setup s wide narrow column line size last = rw fits (
    ground (
      arith,
      wide,
      narrow,
      column,
      line,
      size,
      last,
      display_window setup,
      rows-le setup.orig_y 25 (setup.video_cols * 2) line,
    ))
  where
    fits : (ltb setup.video_cols setup.orig_x || leb 25 setup.orig_y) ≡ false
    fits = ground (arith, column, line)
