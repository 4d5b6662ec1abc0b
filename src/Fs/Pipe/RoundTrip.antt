-- ===== src/Fs/Pipe/RoundTrip.antt =====
-- What is written to an empty pipe is what is read from it.
use linux_0_11_read.Prelude.{
  ℕ, ◌<◌, ◌≡◌, refl, sym, ◌∙◌, ap, List, [], ◌++◌, arith, length, eq_of_front,
}
use linux_0_11_read.Fs.Pipe.{Pipe, page_size, pipe_size, returns, wrote, read_pipe, write_pipe}
use linux_0_11_read.Fs.Pipe.Ring.{held, contents, IsPipe, length-held}
use linux_0_11_read.Fs.Pipe.Read.{read_pipe_lem}
use linux_0_11_read.Fs.Pipe.Write.{write_pipe_lem}

nil_of_empty : (p : Pipe) → pipe_size p ≡ 0 → contents p ≡ []
unfolding held
nil_of_empty p e = rw e refl

-- A write of up to 4095 bytes to an empty, well-formed pipe returns their number, and a read of as
-- many then returns their number too and gives the same bytes in the same order.
pub read_pipe-write_pipe :
    (p : Pipe) (src : List ℕ)
    → IsPipe p
    → pipe_size p ≡ 0
    → length src < page_size
    → (q r : Pipe) × (write_pipe p (length src) src ≡ wrote (length src) q)
      × (read_pipe q (length src) ≡ returns (length src) r src)
read_pipe-write_pipe p src v empty small =
    let (put, rest, q, w, t) = write_pipe_lem p (length src) src v (omega arith) (omega arith) in
    let all : put ≡ src = eq_of_front put rest src t.of_source (omega (arith, t.count_of)) in
    let now : contents q ≡ src =
      t.behind ∙ ap (λ (l : List ℕ). l ++ put) (nil_of_empty p empty) ∙ all in
    let full : pipe_size q ≡ length src =
      sym (length-held q.page q.tail (pipe_size q)) ∙ ap length now in
    let (taken, r, e, k) = read_pipe_lem q (length src) t.valid (omega arith) in
    let same : taken ≡ src =
      eq_of_front taken (contents r) src (sym now ∙ k.rest) (omega (arith, k.count_of, full)) in
    (q, r, ground (arith, w), ground (arith, e, full, same))
