-- ===== src/Fs/Pipe/Read.antt =====
-- `read_pipe` takes the oldest bytes.
use linux_0_11_read.Prelude.{
  ℕ, zero, suc, ◌+◌, ◌-◌, ◌%◌, ◌^◌, ◌≤◌, ◌<◌, ◌≡◌, ◌≢◌, refl, sym, ◌∙◌, ap, List, [], ◌++◌, arith,
  leb, length-append, ◌==◌, if◌then◌else◌, length, low_bits, min, append-nil, append_assoc,
  ℕ_discrete,
}
use linux_0_11_read.Fs.Pipe.{
  Pipe, page_size, pipe_size, chunk, Ending, returns, sleeps, read_chars, read_loop, read_pipe,
}
use linux_0_11_read.Fs.Pipe.Ring.{contents, IsPipe, held-chunk, length-chunk}

-- After a round.
abbrev drained : Pipe → ℕ → Pipe
drained p chars = record p { tail = low_bits (p.tail + chars) 12 }

-- How the call ends that has found `size` bytes in the pipe.
abbrev pub reads : Pipe → ℕ → ℕ → List ℕ → Pipe → Ending
reads p count read out q =
    if leb count (pipe_size p)
    then returns (read + count) q out
    else if p.i_count == 2
    then sleeps (count - pipe_size p) (read + pipe_size p) q out
    else returns (read + pipe_size p) q out

-- The bytes `taken` were the oldest of `p`, as many as there were and were wanted; `q` has the rest.
pub record Took (p : Pipe) (count : ℕ) (taken : List ℕ) (q : Pipe) : Type 0 where
  pub valid : IsPipe q
  pub count_of : length taken ≡ min count (pipe_size p)
  pub rest : contents p ≡ taken ++ contents q
  pub same_count : q.i_count ≡ p.i_count

drained-size :
    (p : Pipe) (c : ℕ) → IsPipe p → c ≤ pipe_size p → pipe_size (drained p c) ≡ pipe_size p - c
drained-size p c v le = omega arith

drained-contents :
    (p : Pipe) (c : ℕ)
    → IsPipe p
    → c ≤ pipe_size p
    → p.tail + c ≤ page_size
    → contents p ≡ chunk p.page p.tail c ++ contents (drained p c)
drained-contents p c v le fits =
    let here : p.tail % 4096 ≡ p.tail = omega (arith, v.tail_in) in
    let all : c + (pipe_size p - c) ≡ pipe_size p = omega arith in
    rw (drained-size p c v le)
      (rw (here, all) at (held-chunk p.page p.tail c (pipe_size p - c) fits))

-- The bytes of a round.
record IsRound (p : Pipe) (count c : ℕ) : Type 0 where
  some_byte : 0 < c
  wanted : c ≤ count
  there : c ≤ pipe_size p
  before_end : p.tail + c ≤ page_size

read_chars-IsRound :
    (p : Pipe) (count : ℕ)
    → IsPipe p
    → count ≢ 0
    → pipe_size p ≢ 0
    → IsRound p count (read_chars p count)
read_chars-IsRound p count v nz more = ground arith

reads-drained :
    (p q : Pipe) (count read c : ℕ) (out : List ℕ)
    → IsPipe p
    → IsRound p count c
    → reads (drained p c) (count - c) (read + c) out q ≡ reads p count read out q
reads-drained p q count read c out v r = ground (arith, drained-size p c v)

drained-IsPipe : (p : Pipe) (c : ℕ) → IsPipe p → IsPipe (drained p c)
drained-IsPipe p c v = omega arith

-- A round in front of what the other rounds took.
Took-round :
    (p q : Pipe) (count c : ℕ) (taken : List ℕ)
    → IsPipe p
    → IsRound p count c
    → Took (drained p c) (count - c) taken q
    → Took p count (chunk p.page p.tail c ++ taken) q
Took-round p q count c taken v r t = record {
  valid = t.valid;
  count_of = omega (
    arith,
    length-append (chunk p.page p.tail c) taken,
    length-chunk p.page p.tail c,
    t.count_of,
    drained-size p c v r.there,
    r.wanted,
    r.there,
  );
  rest =
      drained-contents p c v r.there r.before_end
      ∙ ap (λ (l : List ℕ). chunk p.page p.tail c ++ l) t.rest
      ∙ sym (append_assoc (chunk p.page p.tail c) taken (contents q));
  same_count = t.same_count;
}

Took-none : (p : Pipe) (count : ℕ) → IsPipe p → min count (pipe_size p) ≡ 0 → Took p count [] p
Took-none p count v z = record { valid = v; count_of = sym z; rest = refl; same_count = refl }

read_loop-round :
    (fuel : ℕ) (p : Pipe) (count read : ℕ) (out : List ℕ)
    → count ≢ 0
    → count < 2 ^ 31
    → pipe_size p ≢ 0
    → let c = read_chars p count in
      read_loop (suc fuel) p count read out
      ≡ read_loop fuel (drained p c) (count - c) (read + c) (out ++ chunk p.page p.tail c)
unfolding read_loop
read_loop-round fuel p count read out nz small more = ground arith

read_loop_lem :
    (fuel : ℕ) (p : Pipe) (count read : ℕ) (out : List ℕ)
    → IsPipe p
    → count < 2 ^ 31
    → count < fuel
    → (taken : List ℕ) × (q : Pipe) × (read_loop fuel p count read out
        ≡ reads p count read (out ++ taken) q)
      × Took p count taken q
unfolding read_loop
read_loop_lem zero p count read out v small lt = absurd (omega arith)
read_loop_lem (suc fuel) p count read out v small lt = elim (ℕ_discrete count 0) [
  | yes z ↦ ([], p, ground (arith, append-nil out), Took-none p count v (omega arith))
  | no nz ↦ elim (ℕ_discrete (pipe_size p) 0) [
    | yes empty ↦ ([], p, ground (arith, append-nil out), Took-none p count v (omega arith))
    | no more ↦
        let c = read_chars p count in
        let r = read_chars-IsRound p count v nz more in
        let (taken, q, e, t) =
          read_loop_lem fuel (drained p c) (count - c) (read + c) (out ++ chunk p.page p.tail c)
            (drained-IsPipe p c v) (omega arith) (omega (arith, r.some_byte)) in
        (
          chunk p.page p.tail c ++ taken,
          q,
          read_loop-round fuel p count read out nz small more
              ∙ e
              ∙ reads-drained p q count read c ((out ++ chunk p.page p.tail c) ++ taken) v r
              ∙ ap (λ (l : List ℕ). reads p count read l q)
                  (append_assoc out (chunk p.page p.tail c) taken),
          Took-round p q count c taken v r t,
        )
  ]
]

-- read_pipe of fewer than 2^31 bytes, from a well-formed pipe, ends; the user gets the oldest
-- bytes of the pipe in order, as many as are wanted or as there are, and the rest stay in the
-- pipe. It returns if it has got all or there is no writer, and else it sleeps.
pub read_pipe_lem :
    (p : Pipe) (count : ℕ)
    → IsPipe p
    → count < 2 ^ 31
    → (taken : List ℕ) × (q : Pipe) × (read_pipe p count ≡ reads p count 0 taken q)
      × Took p count taken q
unfolding read_pipe
read_pipe_lem p count v small = read_loop_lem (count + 1) p count 0 [] v small (omega arith)
