-- ===== src/Block/Requests/Queues.antt =====
-- Which requests the queues hold.
use linux_0_11_read.Prelude.{
  ℕ, zero, suc, ◌+◌, ◌*◌, ◌/◌, ◌^◌, ◌≤◌, ◌<◌, ◌≡◌, ◌≢◌, inl, inr, refl, sym, ◌∙◌, List, [], ◌∷◌,
  some, Bool, true, false, not, ◌&&◌, ◌||◌, ◌==◌, leb, is_neg, minus_one, if◌then◌else◌, arith,
  Bool-cases, Option-cases, ℕ_discrete, length, length-set, get_or, set, get_or-set_self,
  get_or-set_ne, Outcome, done, halted, ◌>>◌, ◌>>=◌,
}
use linux_0_11_read.Block.Requests.{
  Request, BufferHead, Block, nr_request, nr_blk_dev, read, write, reada, writea, major, no_request,
  request_at, update, set_buffer, enqueue, add_request, lock_buffer, find_free, new_request,
  queue_request, make_request, ll_rw_block, blk_dev_init, end_request,
}
use linux_0_11_read.Block.Requests.Elevator.{times, times-place}

-- A queue holds each request once, and only requests in use, of its own device.
pub record IsBlock (s : Block) : Type 0 where
  pub size : length s.request ≡ nr_request
  pub once : (m i : ℕ) → times i (s.queue m) ≤ 1
  pub placed :
      (m i : ℕ)
      → times i (s.queue m) ≢ 0
      → (i < nr_request) × (is_neg (request_at s i).dev ≡ false) × (major (request_at s i).dev ≡ m)
  pub devices : (b : ℕ) → (s.buffer b).b_dev < 2 ^ 16

-- The state in which a call returns, sleeps or stops.
unfoldable pub state_of : {A : Type 0} → Outcome Block A → Block
state_of (done a s) = s
state_of (halted h s) = s

pub find_free-some :
    (l : List Request) (n : ℕ) {k : ℕ}
    → find_free l n ≡ some k
    → (k < n) × (is_neg (get_or l k no_request).dev ≡ true)
unfolding find_free
find_free-some l zero e = absurd (ground arith)
find_free-some l (suc n) e = elim (Bool-cases (is_neg (get_or l n no_request).dev)) [
  | inl h ↦ (ground (arith, rw h at e), ground (arith, rw h at e, h))
  | inr h ↦ let ih = find_free-some l n (rw h at e) in (omega (arith, ih.0), ih.1)
]

-- Nothing but the buffers has changed.
set_buffer-IsBlock :
    (b : ℕ) (h : BufferHead) (s : Block) → h.b_dev < 2 ^ 16 → IsBlock s → IsBlock (set_buffer b h s)
set_buffer-IsBlock b h s small v = record {
  size = v.size;
  once = v.once;
  placed = v.placed;
  devices = λ c. ground (arith, v.devices c, small);
}

times-enqueue :
    (r : ℕ → Request) (req i : ℕ) (l : List ℕ) → times i (enqueue r req l).0 ≡ times i (req ∷ l)
unfolding times
times-enqueue r req i [] = refl
times-enqueue r req i (tmp ∷ rest) = omega (arith, times-place r req tmp i rest)

-- A free request, filled in for the buffer `b` and queued.
module _ (m cmd req b : ℕ) (s : Block) (v : IsBlock s) where
  abbrev filled : Block
  filled = record s { request = set s.request req (new_request cmd b (s.buffer b)) }

  not_queued : is_neg (request_at s req).dev ≡ true → (k : ℕ) → times req (s.queue k) ≡ 0
  not_queued free k = elim (ℕ_discrete (times req (s.queue k)) 0) [
    | yes e ↦ e
    | no ne ↦ let (_, used, _) = v.placed k req ne in absurd (ground (arith, free, used))
  ]

  -- The queues then, by how often each has `i`.
  new_times :
      (k i : ℕ)
      → times i ((add_request m req filled).queue k)
        ≡ (if m == k then times i (req ∷ s.queue k) else times i (s.queue k))
  unfolding add_request
  new_times k i = elim (ℕ_discrete m k) [
    | yes e ↦ rw e (ground (arith, times-enqueue (request_at filled) req i (s.queue k)))
    | no ne ↦ ground (arith, ne)
  ]

  filled_self : req < nr_request → request_at filled req ≡ new_request cmd b (s.buffer b)
  filled_self h = get_or-set_self s.request req _ no_request (omega (arith, h, v.size))

  new_placed :
      major (s.buffer b).b_dev ≡ m
      → req < nr_request
      → is_neg (request_at s req).dev ≡ true
      → (k i : ℕ) → times i ((add_request m req filled).queue k) ≢ 0
      → (i < nr_request)
        × (is_neg (request_at filled i).dev ≡ false)
        × (major (request_at filled i).dev ≡ k)
  unfolding times
  new_placed of_m h free k i some_here = elim (ℕ_discrete req i) [
    | yes e ↦
        ground (arith, e, h, filled_self h, not_queued free k, v.devices b, of_m, new_times k i)
    | no ne ↦
        rw (get_or-set_ne s.request req i (new_request cmd b (s.buffer b)) no_request ne)
          (v.placed k i (ground (arith, ne, new_times k i)))
  ]

  queued-IsBlock :
      major (s.buffer b).b_dev ≡ m
      → req < nr_request
      → is_neg (request_at s req).dev ≡ true
      → IsBlock (add_request m req filled)
  unfolding add_request times
  queued-IsBlock of_m h free = record {
    size = length-set s.request req _ ∙ v.size;
    once = λ k i. ground (arith, new_times k i, v.once k i, not_queued free k);
    placed = new_placed of_m h free;
    devices = λ c. ground (arith, v.devices c, v.devices (request_at filled req).bh);
  }

queue_request-IsBlock :
    (m cmd : ℕ) (ahead : Bool) (b : ℕ) (s : Block)
    → major (s.buffer b).b_dev ≡ m
    → IsBlock s
    → IsBlock (state_of (queue_request m cmd ahead b s))
unfolding queue_request state_of
queue_request-IsBlock m cmd ahead b s of_m v =
    elim (Bool-cases
      (((cmd == write) && not (s.buffer b).b_dirt) || ((cmd == read) && (s.buffer b).b_uptodate))) [
        | inl idle ↦ rw idle (set_buffer-IsBlock b _ s (v.devices b) v)
        | inr busy ↦
            elim (Option-cases
              (find_free s.request (if cmd == read then nr_request else nr_request * 2 / 3))) [
                | inl full ↦ elim (Bool-cases ahead) [
                  | inl a ↦ rw (busy, full, a) (set_buffer-IsBlock b _ s (v.devices b) v)
                  | inr a ↦ rw (busy, full, a) v
                ]
                | inr (req, e) ↦
                    let (h, free) = find_free-some s.request _ e in
                    rw (busy, e) (queued-IsBlock m cmd req b s v of_m (ground (arith, h)) free)
              ]
      ]

make_request-IsBlock :
    (m cmd b : ℕ) (s : Block)
    → major (s.buffer b).b_dev ≡ m
    → IsBlock s
    → IsBlock (state_of (make_request m cmd b s))
unfolding make_request state_of
make_request-IsBlock m cmd b s of_m v =
    elim (Bool-cases (((cmd == reada) || (cmd == writea)) && (s.buffer b).b_lock)) [
      | inl skip ↦ rw (skip, state_of) v
      | inr go ↦ elim (Bool-cases (not (cmd' == read) && not (cmd' == write))) [
        | inl bad ↦ rw (go, bad, state_of) v
        | inr good ↦ elim (Bool-cases (s.buffer b).b_lock) [
          | inl busy ↦ rw (go, good, state_of) (rw (busy, lock_buffer, ◌>>◌, ◌>>=◌, state_of) v)
          | inr idle ↦
              rw (go, good, state_of)
                (rw (idle, lock_buffer, ◌>>◌, ◌>>=◌, state_of)
                  (queue_request-IsBlock m cmd' ((cmd == reada) || (cmd == writea)) b locked
                    (ground (arith, of_m)) (set_buffer-IsBlock b _ s (v.devices b) v)))
        ]
      ]
    ]
  where
    cmd' : ℕ
    cmd' = if cmd == reada then read else if cmd == writea then write else cmd

    locked : Block
    locked = set_buffer b (record (s.buffer b) { b_lock = true }) s

pub ll_rw_block-IsBlock :
    (cmd b : ℕ) (s : Block) → IsBlock s → IsBlock (state_of (ll_rw_block cmd b s))
unfolding ll_rw_block state_of
ll_rw_block-IsBlock cmd b s v =
    elim (Bool-cases (
      leb nr_blk_dev (major (s.buffer b).b_dev) || not (s.has_driver (major (s.buffer b).b_dev)))) [
        | inl none_there ↦ rw none_there v
        | inr there ↦ rw there (make_request-IsBlock (major (s.buffer b).b_dev) cmd b s refl v)
      ]

-- The first request of a queue is given back.
ended-IsBlock :
    (m req : ℕ) (rest : List ℕ) (s : Block) (buffer : ℕ → BufferHead)
    → s.queue m ≡ req ∷ rest
    → ((b : ℕ) → (buffer b).b_dev < 2 ^ 16)
    → IsBlock s
    → IsBlock (record s {
      buffer = buffer;
      request = set s.request req (record (request_at s req) { dev = minus_one });
      queue = update s.queue m rest;
    })
unfolding times
ended-IsBlock m req rest s buffer e small v = record {
  size = length-set s.request req _ ∙ v.size;
  once = λ k i. ground (arith, left k i, v.once k i);
  placed = λ k i some_here. elim (ℕ_discrete req i) [
    | yes same ↦ absurd (some_here (ground (arith, same, gone k)))
    | no ne ↦
        rw (get_or-set_ne s.request req i _ no_request ne)
          (v.placed k i (ground (arith, some_here, left k i)))
  ];
  devices = small;
}
  where
    first : times req (s.queue m) ≡ 1 + times req rest
    first = rw e (ground arith)

    left : (k i : ℕ) → times i (update s.queue m rest k) ≤ times i (s.queue k)
    left k i = elim (ℕ_discrete m k) [
      | yes same ↦ rw (sym same) (rw e (ground arith))
      | no ne ↦ ground (arith, ne)
    ]

    -- The request is in no queue any more.
    gone : (k : ℕ) → times req (update s.queue m rest k) ≡ 0
    gone k = elim (ℕ_discrete m k) [
      | yes same ↦ rw (sym same) (ground (arith, first, v.once m req))
      | no ne ↦ elim (ℕ_discrete (times req (s.queue k)) 0) [
        | yes z ↦ ground (arith, ne, z)
        | no some_there ↦
            let (_, _, of_k) = v.placed k req some_there in
            let (_, _, of_m) = v.placed m req (omega (arith, first)) in
            absurd (ne (sym of_m ∙ of_k))
      ]
    ]

pub end_request-IsBlock :
    (m : ℕ) (uptodate : Bool) (s : Block)
    → IsBlock s
    → IsBlock (state_of (end_request m uptodate s))
unfolding end_request state_of
end_request-IsBlock m uptodate s v = by_queue (s.queue m) refl
  where
    by_queue : (l : List ℕ) → s.queue m ≡ l → IsBlock (state_of (end_request m uptodate s))
    by_queue [] e = rw (e, end_request, state_of) v
    by_queue (req ∷ rest) e =
        rw (e, end_request, state_of)
          (ended-IsBlock m req rest s _ e
            (λ b. ground (arith, v.devices b, v.devices (request_at s req).bh)) v)

-- Calls of the file system and interrupts of the drivers, in any order, after `blk_dev_init`.
pub data Runs (start : Block) : Block → Type 0 where
  booted : Runs start (blk_dev_init start)
  asks : {s : Block} → Runs start s → (cmd b : ℕ) → Runs start (state_of (ll_rw_block cmd b s))
  ends :
      {s : Block}
      → Runs start s
      → (m : ℕ) (uptodate : Bool) → Runs start (state_of (end_request m uptodate s))

blk_dev_init-IsBlock :
    (s : Block)
    → ((m : ℕ) → s.queue m ≡ [])
    → ((b : ℕ) → (s.buffer b).b_dev < 2 ^ 16)
    → IsBlock (blk_dev_init s)
unfolding blk_dev_init times
blk_dev_init-IsBlock s empty small = record {
  size = refl;
  once = λ m i. rw (empty m) (omega arith);
  placed = λ m i some_here. absurd (some_here (rw (empty m) refl));
  devices = small;
}

-- After blk_dev_init, with empty queues and 16-bit device numbers, and for any order of
-- ll_rw_block and end_request: every queue holds each request once at most, and only requests in
-- use, of its own device, so that no free request is in a queue.
pub Runs-IsBlock :
    {start s : Block}
    → ((m : ℕ) → start.queue m ≡ [])
    → ((b : ℕ) → (start.buffer b).b_dev < 2 ^ 16)
    → Runs start s
    → IsBlock s
Runs-IsBlock {start} empty small booted = blk_dev_init-IsBlock start empty small
Runs-IsBlock empty small (asks {s} r cmd b) =
    ll_rw_block-IsBlock cmd b s (Runs-IsBlock empty small r)
Runs-IsBlock empty small (ends {s} r m uptodate) =
    end_request-IsBlock m uptodate s (Runs-IsBlock empty small r)
