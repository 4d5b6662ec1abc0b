-- ===== src/Fs/Pipe/Write.antt =====
-- `write_pipe` puts bytes behind those that are there.
use linux_0_11_read.Prelude.{
  ℕ, zero, suc, ◌+◌, ◌-◌, ◌^◌, ◌≤◌, ◌<◌, ◌≡◌, ◌≢◌, refl, sym, ◌∙◌, ap, List, [], ◌++◌, arith, leb,
  minus_one, ◌==◌, if◌then◌else◌, length, length-append, length-take, length-drop, take, drop,
  take-append-drop, low_bits, min, append-nil, append_assoc, ℕ_discrete,
}
use linux_0_11_read.Fs.Pipe.{
  Pipe, page_size, pipe_size, room, fill, Written, wrote, broken, waits, write_chars, write_loop,
  write_pipe,
}
use linux_0_11_read.Fs.Pipe.Ring.{contents, IsPipe, held-fill, length-fill}

-- After a round.
abbrev filled : Pipe → ℕ → List ℕ → Pipe
filled p chars src = record p {
  head = low_bits (p.head + chars) 12;
  page = fill p.page p.head (take chars src);
}

-- How the call ends that has found room for some bytes in the pipe.
abbrev pub writes : Pipe → ℕ → ℕ → List ℕ → Pipe → Written
writes p count written rest q =
    if leb count (room p)
    then wrote (written + count) q
    else if p.i_count == 2
    then waits (count - room p) (written + room p) q rest
    else broken (if written + room p == 0 then minus_one else written + room p) q

-- The bytes `put` of the user's went into `p` behind those it had; `rest` is left of the user's.
pub record Put (p : Pipe) (count : ℕ) (src put rest : List ℕ) (q : Pipe) : Type 0 where
  pub valid : IsPipe q
  pub count_of : length put ≡ min count (room p)
  pub of_source : src ≡ put ++ rest
  pub behind : contents q ≡ contents p ++ put
  pub same_count : q.i_count ≡ p.i_count

record IsRound (p : Pipe) (count c : ℕ) (src : List ℕ) : Type 0 where
  some_byte : 0 < c
  wanted : c ≤ count
  fits : c ≤ room p
  before_end : p.head + c ≤ page_size
  from_source : length (take c src) ≡ c

write_chars_bounds :
    (p : Pipe) (count : ℕ)
    → IsPipe p
    → count ≢ 0
    → room p ≢ 0
    → let c = write_chars p count in (0 < c) × (c ≤ count) × (c ≤ room p) × (p.head + c ≤ page_size)
write_chars_bounds p count v nz more = ground arith

write_chars-IsRound :
    (p : Pipe) (count : ℕ) (src : List ℕ)
    → IsPipe p
    → count ≢ 0
    → room p ≢ 0
    → count ≤ length src
    → IsRound p count (write_chars p count) src
write_chars-IsRound p count src v nz more le =
    let b = write_chars_bounds p count v nz more in
    record {
      some_byte = b.0;
      wanted = b.1;
      fits = b.2;
      before_end = b.3;
      from_source = length-take (write_chars p count) src (omega (arith, b.1));
    }

filled-size :
    (p : Pipe) (c : ℕ) (src : List ℕ)
    → IsPipe p
    → c ≤ room p
    → pipe_size (filled p c src) ≡ pipe_size p + c
filled-size p c src v le = omega arith

filled-IsPipe : (p : Pipe) (c : ℕ) (src : List ℕ) → IsPipe p → IsPipe (filled p c src)
filled-IsPipe p c src v = record {
  page_of = length-fill p.page p.head (take c src) ∙ v.page_of;
  head_in = omega arith;
  tail_in = v.tail_in;
}

filled-contents :
    (p : Pipe) (count c : ℕ) (src : List ℕ)
    → IsPipe p
    → IsRound p count c src
    → contents (filled p c src) ≡ contents p ++ take c src
filled-contents p count c src v r = rw (filled-size p c src v r.fits) (
    rw r.from_source at (
      held-fill (take c src) p.page p.tail (pipe_size p) p.head v.page_of v.tail_in
        (omega (arith, r.from_source, r.fits)) (omega (arith, r.from_source, r.before_end))
        (omega (arith, v.head_in, v.tail_in))))

writes-filled :
    (p q : Pipe) (count written c : ℕ) (src rest : List ℕ)
    → IsPipe p
    → IsRound p count c src
    → writes (filled p c src) (count - c) (written + c) rest q ≡ writes p count written rest q
writes-filled p q count written c src rest v r = ground (arith, filled-size p c src v)

Put-round :
    (p q : Pipe) (count c : ℕ) (src put rest : List ℕ)
    → IsPipe p
    → IsRound p count c src
    → Put (filled p c src) (count - c) (drop c src) put rest q
    → Put p count src (take c src ++ put) rest q
Put-round p q count c src put rest v r t = record {
  valid = t.valid;
  count_of = omega (
    arith,
    length-append (take c src) put,
    r.from_source,
    t.count_of,
    filled-size p c src v r.fits,
    r.wanted,
    r.fits,
  );
  of_source =
      sym (take-append-drop c src)
      ∙ ap (λ (l : List ℕ). take c src ++ l) t.of_source
      ∙ sym (append_assoc (take c src) put rest);
  behind =
      t.behind
      ∙ ap (λ (l : List ℕ). l ++ put) (filled-contents p count c src v r)
      ∙ append_assoc (contents p) (take c src) put;
  same_count = t.same_count;
}

Put-none :
    (p : Pipe) (count : ℕ) (src : List ℕ)
    → IsPipe p
    → min count (room p) ≡ 0
    → Put p count src [] src p
Put-none p count src v z = record {
  valid = v;
  count_of = sym z;
  of_source = refl;
  behind = sym (append-nil (contents p));
  same_count = refl;
}

write_loop-round :
    (fuel : ℕ) (p : Pipe) (count written : ℕ) (src : List ℕ)
    → count ≢ 0
    → count < 2 ^ 31
    → room p ≢ 0
    → let c = write_chars p count in
      write_loop (suc fuel) p count written src
      ≡ write_loop fuel (filled p c src) (count - c) (written + c) (drop c src)
unfolding write_loop
write_loop-round fuel p count written src nz small more = ground arith

write_loop_lem :
    (fuel : ℕ) (p : Pipe) (count written : ℕ) (src : List ℕ)
    → IsPipe p
    → count < 2 ^ 31
    → count < fuel
    → count ≤ length src
    → (put rest : List ℕ) × (q : Pipe) × (write_loop fuel p count written src
        ≡ writes p count written rest q)
      × Put p count src put rest q
unfolding write_loop
write_loop_lem zero p count written src v small lt le = absurd (omega arith)
write_loop_lem (suc fuel) p count written src v small lt le = elim (ℕ_discrete count 0) [
  | yes z ↦ ([], src, p, ground arith, Put-none p count src v (omega arith))
  | no nz ↦ elim (ℕ_discrete (room p) 0) [
    | yes full ↦ ([], src, p, ground arith, Put-none p count src v (omega arith))
    | no more ↦
        let c = write_chars p count in
        let r = write_chars-IsRound p count src v nz more le in
        let (put, rest, q, e, t) =
          write_loop_lem fuel (filled p c src) (count - c) (written + c) (drop c src)
            (filled-IsPipe p c src v) (omega arith) (omega (arith, r.some_byte))
            (omega (arith, length-drop c src)) in
        (
          take c src ++ put,
          rest,
          q,
          write_loop-round fuel p count written src nz small more
              ∙ e
              ∙ writes-filled p q count written c src rest v r,
          Put-round p q count c src put rest v r t,
        )
  ]
]

-- write_pipe of fewer than 2^31 bytes, to a well-formed pipe and from a buffer that has as many,
-- ends; the first of the bytes of the user, as many as are wanted or as there is room for, are in
-- order behind those that the pipe held. It returns the count if all are in; else it sleeps with a
-- reader there, and with none it fails with what it has written, or -1.
pub write_pipe_lem :
    (p : Pipe) (count : ℕ) (src : List ℕ)
    → IsPipe p
    → count < 2 ^ 31
    → count ≤ length src
    → (put rest : List ℕ) × (q : Pipe) × (write_pipe p count src ≡ writes p count 0 rest q)
      × Put p count src put rest q
unfolding write_pipe
write_pipe_lem p count src v small le =
    write_loop_lem (count + 1) p count 0 src v small (omega arith) le
