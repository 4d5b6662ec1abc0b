-- ===== src/Block/Requests/Tests.antt =====
-- Runs of the request queues, and the theorems at two blocks of a disk.
use linux_0_11_read.Prelude.{
  ℕ, ◌≡◌, ◌≤◌, refl, List, [], ◌∷◌, true, false, replicate, arith, inl, ◌==◌, if◌then◌else◌,
}
use linux_0_11_read.Block.Requests.{
  Request, BufferHead, Block, no_request, request_at, in_order, place, add_request, find_free,
  queue_request, make_request, ll_rw_block, blk_dev_init, end_request,
}
use linux_0_11_read.Block.Requests.Elevator.{restarts, times, add_request-restarts}
use linux_0_11_read.Block.Requests.Queues.{IsBlock, state_of, booted, asks, ends, Runs-IsBlock}

-- Block `b` of the first hard disk, to be written.
abbrev dirty : ℕ → BufferHead
dirty b = record { b_dev = 0x301; b_blocknr = b; b_uptodate = true; b_dirt = true; b_lock = false }

abbrev boot : Block
boot = record {
  request = [];
  queue = λ m. [];
  has_driver = λ m. m == 3;
  buffer = dirty;
  started = [];
}

abbrev two_writes : Block
two_writes = state_of (ll_rw_block 1 9 (state_of (ll_rw_block 1 5 (blk_dev_init boot))))

Runs-IsBlock_example : IsBlock (state_of (end_request 3 true two_writes))
Runs-IsBlock_example =
    Runs-IsBlock {start = boot} (λ m. refl) (λ b. omega arith)
      (ends (asks (asks booted 1 5) 1 9) 3 true)

in_line : two_writes.queue 3 ≡ 20 ∷ 19 ∷ []
unfolding state_of ll_rw_block make_request queue_request find_free add_request place in_order
    blk_dev_init
in_line = refl

abbrev wish : ℕ → Request
wish sector = record no_request { dev = 0x301; cmd = 0; sector = sector }

-- Request 0 is at sector 50, 1 at sector 10 and 2 at 70.
abbrev three : Block
three = record boot {
  request = wish 50 ∷ wish 10 ∷ wish 70 ∷ replicate 29 no_request;
  queue = λ m. if m == 3 then 0 ∷ 1 ∷ [] else [];
}

add_request-restarts_example :
    (rest' : List ℕ) × ((add_request 3 2 three).queue 3 ≡ 0 ∷ rest')
    × (restarts (request_at three) 0 rest' ≤ 1)
    × ((i : ℕ) → times i (0 ∷ rest') ≡ times i (2 ∷ 0 ∷ 1 ∷ []))
unfolding in_order restarts
add_request-restarts_example =
    add_request-restarts 3 2 0 (1 ∷ []) three refl (inl refl, (inl refl, tt)) (omega arith)

passed_on : (add_request 3 2 three).queue 3 ≡ 0 ∷ 1 ∷ 2 ∷ []
unfolding add_request place in_order
passed_on = refl
