-- ===== src/Chr/Console/Sequences.antt =====
-- The escape sequences keep the layout.
use linux_0_11_read.Prelude.{
  ℕ, ◌+◌, ◌-◌, inl, inr, refl, arith, ◌&&◌, ◌==◌, ltb, leb, if◌then◌else◌, add32, sub32, Bool-cases,
  ◌∙◌, set, length-set, replicate,
}
use linux_0_11_read.Chr.Console.{Console, n_par, restore_cur}
use linux_0_11_read.Chr.Console.Write.{
  escape, par_at, count_down, at_least_1, set_region, move_cursor, edit, command, param,
  first_param,
}
use linux_0_11_read.Chr.Console.Layout.{IsLaid, IsSafe, gotoxy-IsSafe}
use linux_0_11_read.Chr.Console.Scroll.{IsSafe-refl, IsSafe-trans, lf-IsSafe, ri-IsSafe}
use linux_0_11_read.Chr.Console.Editing.{
  csi_J-IsSafe, csi_K-IsSafe, csi_L-IsSafe, csi_M-IsSafe, csi_P-IsSafe, csi_at-IsSafe, csi_m-IsSafe,
  save_cur-IsSafe,
}
use linux_0_11_read.Chr.Console.Printing.{
  if_IsSafe, parsed, parsed-IsSafe, state-IsSafe, respond-IsSafe,
}

pub escape-IsSafe : (c : ℕ) (s : Console) → IsLaid s → IsSafe s (escape c s)
unfolding escape restore_cur
escape-IsSafe c s v =
    let start = state-IsSafe s 0 v in
    let t : Console = record s { state = 0 } in
    IsSafe-trans start (
      if_IsSafe _ (state-IsSafe t 2 start.laid) (
        if_IsSafe _ (gotoxy-IsSafe 0 (add32 s.y 1) t start.laid) (
          if_IsSafe _ (ri-IsSafe t start.laid) (
            if_IsSafe _ (lf-IsSafe t start.laid) (
              if_IsSafe _ (respond-IsSafe t start.laid) (
                if_IsSafe _ (save_cur-IsSafe t start.laid) (
                  if_IsSafe _ (gotoxy-IsSafe t.saved_x t.saved_y t start.laid)
                    (IsSafe-refl t start.laid))))))))

count_down-IsSafe : (i : ℕ) (s : Console) → IsLaid s → IsSafe s (count_down i s)
count_down-IsSafe i s v = if_IsSafe _ (IsSafe-refl s v) (
    parsed-IsSafe s s.state s.npar (set s.par i (par_at s i - 1)) s.ques v
      (length-set s.par i (par_at s i - 1) ∙ v.params) v.last_param)

set_par-IsSafe : (s : Console) (i n : ℕ) → IsLaid s → IsSafe s (record s { par = set s.par i n })
set_par-IsSafe s i n v =
    parsed-IsSafe s s.state s.npar (set s.par i n) s.ques v (length-set s.par i n ∙ v.params)
      v.last_param

region-IsSafe :
    (s : Console)
    → IsLaid s
    → IsSafe s (
        if ltb (par_at s 0) (par_at s 1) && leb (par_at s 1) s.num_lines
        then record s { top = par_at s 0; bottom = par_at s 1 }
        else s)
region-IsSafe s v = ground (arith, v)

set_region-IsSafe : (s : Console) → IsLaid s → IsSafe s (set_region s)
set_region-IsSafe s v =
    let full : IsSafe s
        (if par_at s 1 == 0 then record s { par = set s.par 1 s.num_lines } else s) =
      if_IsSafe _ (set_par-IsSafe s 1 s.num_lines v) (IsSafe-refl s v) in
    IsSafe-trans full (region-IsSafe _ full.laid)

move_cursor-IsSafe : (c : ℕ) (s : Console) → IsLaid s → IsSafe s (move_cursor c s)
unfolding move_cursor
move_cursor-IsSafe c s v =
    let t : Console = at_least_1 s in
    let n = par_at t 0 in
    let k : IsSafe s t = if_IsSafe _ (set_par-IsSafe s 0 1 v) (IsSafe-refl s v) in
    IsSafe-trans k (
      if_IsSafe _ (gotoxy-IsSafe t.x (sub32 t.y n) t k.laid) (
        if_IsSafe _ (gotoxy-IsSafe t.x (add32 t.y n) t k.laid) (
          if_IsSafe _ (gotoxy-IsSafe (add32 t.x n) t.y t k.laid) (
            if_IsSafe _ (gotoxy-IsSafe (sub32 t.x n) t.y t k.laid) (
              if_IsSafe _ (gotoxy-IsSafe 0 (add32 t.y n) t k.laid)
                (gotoxy-IsSafe 0 (sub32 t.y n) t k.laid))))))

edit-IsSafe : (c : ℕ) (s : Console) → IsLaid s → IsSafe s (edit c s)
unfolding edit restore_cur
edit-IsSafe c s v =
    let n = par_at s 0 in
    let down = count_down-IsSafe 0 s v in
    if_IsSafe _ (csi_J-IsSafe n s v) (
      if_IsSafe _ (csi_K-IsSafe n s v) (
        if_IsSafe _ (csi_L-IsSafe n s v) (
          if_IsSafe _ (csi_M-IsSafe n s v) (
            if_IsSafe _ (csi_P-IsSafe n s v) (
              if_IsSafe _ (csi_at-IsSafe n s v) (
                if_IsSafe _ (csi_m-IsSafe s v) (
                  if_IsSafe _ (IsSafe-trans down (set_region-IsSafe (count_down 0 s) down.laid)) (
                    if_IsSafe _ (save_cur-IsSafe s v) (
                      if_IsSafe _ (gotoxy-IsSafe s.saved_x s.saved_y s v) (IsSafe-refl s v))))))))))

pub command-IsSafe : (c : ℕ) (s : Console) → IsLaid s → IsSafe s (command c s)
unfolding command
command-IsSafe c s v =
    let t : Console = record s { state = 0 } in
    let start = state-IsSafe s 0 v in
    let d : Console = count_down 0 t in
    let down = count_down-IsSafe 0 t start.laid in
    let b : Console = count_down 1 d in
    let both = IsSafe-trans down (count_down-IsSafe 1 d down.laid) in
    IsSafe-trans start (
      if_IsSafe _ (IsSafe-trans down (gotoxy-IsSafe (par_at d 0) d.y d down.laid)) (
        if_IsSafe _ (IsSafe-trans down (gotoxy-IsSafe d.x (par_at d 0) d down.laid)) (
          if_IsSafe _ (IsSafe-trans both (gotoxy-IsSafe (par_at b 1) (par_at b 0) b both.laid))
            (if_IsSafe _ (move_cursor-IsSafe c t start.laid) (edit-IsSafe c t start.laid)))))

pub param-IsSafe : (c : ℕ) (s : Console) → IsLaid s → IsSafe s (param c s)
unfolding param
param-IsSafe c s v = elim (Bool-cases ((c == b';') && ltb s.npar (n_par - 1))) [
  | inl h ↦ rw h (parsed-IsSafe s s.state (s.npar + 1) s.par s.ques v v.params (ground (arith, h)))
  | inr h ↦
      let four = state-IsSafe s 4 v in
      rw h (
        if_IsSafe _ (set_par-IsSafe s s.npar _ v)
          (IsSafe-trans four (command-IsSafe c (record s { state = 4 }) four.laid)))
]

pub first_param-IsSafe : (c : ℕ) (s : Console) → IsLaid s → IsSafe s (first_param c s)
unfolding first_param
first_param-IsSafe c s v =
    let t : Console = parsed s 3 0 (replicate n_par 0) (c == b'?') in
    let start = parsed-IsSafe s 3 0 (replicate n_par 0) (c == b'?') v refl (omega arith) in
    IsSafe-trans start (if_IsSafe _ (IsSafe-refl t start.laid) (param-IsSafe c t start.laid))
