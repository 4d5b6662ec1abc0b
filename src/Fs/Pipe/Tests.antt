-- ===== src/Fs/Pipe/Tests.antt =====
-- Runs of the pipe at the end of its page, and the theorems there.
use linux_0_11_read.Prelude.{
  ℕ, ◌≡◌, refl, List, [], ◌∷◌, arith, replicate, length, length-replicate,
}
use linux_0_11_read.Fs.Pipe.{Pipe, returns, wrote, read_pipe, read_loop, write_pipe, chunk}
use linux_0_11_read.Fs.Pipe.Ring.{IsPipe}
use linux_0_11_read.Fs.Pipe.Read.{Took, reads, read_pipe_lem}
use linux_0_11_read.Fs.Pipe.Write.{Put, writes, write_pipe_lem}
use linux_0_11_read.Fs.Pipe.RoundTrip.{read_pipe-write_pipe}

blank_page : ℕ → List ℕ
blank_page n = replicate n 0

length-blank_page : (n : ℕ) → length (blank_page n) ≡ n
unfolding blank_page
length-blank_page n = length-replicate n 0

-- An empty pipe two bytes before the end of its page.
abbrev near_end : Pipe
near_end = record { page = blank_page 4096; head = 4094; tail = 4094; i_count = 2 }

near_end-IsPipe : IsPipe near_end
near_end-IsPipe = record {
  page_of = length-blank_page 4096;
  head_in = omega arith;
  tail_in = omega arith;
}

abbrev word : List ℕ
word = 104 ∷ 101 ∷ 108 ∷ 108 ∷ 111 ∷ []

-- A pipe that holds four bytes, round the end.
abbrev holding : Pipe
holding = record near_end { head = 2 }

holding-IsPipe : IsPipe holding
holding-IsPipe = record {
  page_of = length-blank_page 4096;
  head_in = omega arith;
  tail_in = omega arith;
}

holding_read_goes_round :
    read_pipe holding 3 ≡ returns 3 (record holding { tail = 1 }) (0 ∷ 0 ∷ 0 ∷ [])
unfolding read_pipe read_loop chunk blank_page
holding_read_goes_round = refl

read_pipe_lem_example :
    (taken : List ℕ) × (q : Pipe) × (read_pipe holding 3 ≡ reads holding 3 0 taken q)
    × Took holding 3 taken q
read_pipe_lem_example = read_pipe_lem holding 3 holding-IsPipe (omega arith)

write_pipe_lem_example :
    (put rest : List ℕ) × (q : Pipe) × (write_pipe near_end 5 word ≡ writes near_end 5 0 rest q)
    × Put near_end 5 word put rest q
write_pipe_lem_example = write_pipe_lem near_end 5 word near_end-IsPipe (omega arith) (omega arith)

read_pipe-write_pipe_example :
    (q r : Pipe) × (write_pipe near_end 5 word ≡ wrote 5 q) × (read_pipe q 5 ≡ returns 5 r word)
read_pipe-write_pipe_example = read_pipe-write_pipe near_end word near_end-IsPipe refl (omega arith)
