-- ===== src/Fs/Pipe.antt =====
-- fs/pipe.c: `read_pipe` and `write_pipe`. A call runs until it returns or calls `sleep_on`; one
-- that sleeps goes on, when it is woken, with the bytes that are left to transfer.
pub mod Ring
pub mod Read
pub mod Write
pub mod RoundTrip
mod Tests
use linux_0_11_read.Prelude.{
  ℕ, zero, suc, ◌+◌, ◌-◌, ◌^◌, List, [], ◌∷◌, ◌++◌, Bool, true, false, not, sub32, slt, ltb, ◌==◌,
  if◌then◌else◌, low_bits, get_or, set, minus_one, take, drop, length,
}

-- The page, PIPE_HEAD, PIPE_TAIL and `i_count`.
pub record Pipe : Type 0 where
  pub page : List ℕ
  pub head : ℕ
  pub tail : ℕ
  pub i_count : ℕ

abbrev pub page_size : ℕ
page_size = 4096

-- PIPE_SIZE
abbrev pub pipe_size : Pipe → ℕ
pipe_size p = low_bits (sub32 p.head p.tail) 12

-- `if (chars > limit) chars = limit;`
abbrev pub at_most : ℕ → ℕ → ℕ
at_most limit chars = if ltb limit chars then limit else chars

-- The bytes of the page at `n` places from `i` on, as `put_fs_byte` gets them.
unfoldable pub chunk : List ℕ → ℕ → ℕ → List ℕ
chunk page i zero = []
chunk page i (suc n) = get_or page i 0 ∷ chunk page (i + 1) n

-- The bytes from `get_fs_byte`, put at the places from `i` on.
unfoldable pub fill : List ℕ → ℕ → List ℕ → List ℕ
fill page i [] = page
fill page i (b ∷ bytes) = fill (set page i b) (i + 1) bytes

-- How a call ends. `out` is what the user's buffer has got, `rest` what is left of it.
pub data Ending : Type 0 where
  returns : ℕ → Pipe → List ℕ → Ending
  sleeps : ℕ → ℕ → Pipe → List ℕ → Ending
  out_of_fuel : Ending

-- How many bytes a round of `read_pipe` moves.
abbrev pub read_chars : Pipe → ℕ → ℕ
read_chars p count = at_most (pipe_size p) (at_most count (page_size - p.tail))

unfoldable pub read_loop : ℕ → Pipe → ℕ → ℕ → List ℕ → Ending
read_loop zero p count read out = out_of_fuel
read_loop (suc fuel) p count read out =
    let chars = read_chars p count in
    let again =
      read_loop fuel (record p { tail = low_bits (p.tail + chars) 12 }) (count - chars)
        (read + chars) (out ++ chunk p.page p.tail chars) in
    if not (slt 0 count)
    then returns read p out
    else if pipe_size p == 0
    then if not (p.i_count == 2) then returns read p out else sleeps count read p out
    else again

-- One more round than there are bytes is enough.
unfoldable pub read_pipe : Pipe → ℕ → Ending
read_pipe p count = read_loop (count + 1) p count 0 []

-- The room that `write_pipe` sees.
abbrev pub room : Pipe → ℕ
room p = page_size - 1 - pipe_size p

abbrev pub write_chars : Pipe → ℕ → ℕ
write_chars p count = at_most (room p) (at_most count (page_size - p.head))

-- A write with no readers also sends SIGPIPE to the caller: `broken`.
pub data Written : Type 0 where
  wrote : ℕ → Pipe → Written
  broken : ℕ → Pipe → Written
  waits : ℕ → ℕ → Pipe → List ℕ → Written
  no_fuel : Written

-- `src` is what is left of the user's buffer.
unfoldable pub write_loop : ℕ → Pipe → ℕ → ℕ → List ℕ → Written
write_loop zero p count written src = no_fuel
write_loop (suc fuel) p count written src =
    let chars = write_chars p count in
    let again =
      write_loop fuel
        (record p {
          head = low_bits (p.head + chars) 12;
          page = fill p.page p.head (take chars src);
        })
        (count - chars) (written + chars) (drop chars src) in
    if not (slt 0 count)
    then wrote written p
    else if room p == 0
    then if not (p.i_count == 2)
      then broken (if written == 0 then minus_one else written) p
      else waits count written p src
    else again

unfoldable pub write_pipe : Pipe → ℕ → List ℕ → Written
write_pipe p count src = write_loop (count + 1) p count 0 src
