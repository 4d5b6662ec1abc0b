-- ===== src/Block/Requests.antt =====
-- kernel/blk_drv/ll_rw_blk.c and `end_request` of blk.h. A `struct request *` is an index into
-- `request[NR_REQUEST]`, the list from `current_request` the list of its indices, and a buffer is
-- named by a number. A `request_fn` that is called is recorded: it starts the device.
pub mod Elevator
pub mod Queues
mod Tests
use linux_0_11_read.Prelude.{
  ℕ, zero, suc, ◌+◌, ◌-◌, ◌*◌, ◌/◌, ◌%◌, ◌^◌, List, [], ◌∷◌, Option, none, some, Bool, true, false,
  not, ◌&&◌, ◌||◌, ◌==◌, ltb, leb, slt, is_neg, minus_one, mul32, if◌then◌else◌, get_or, set,
  replicate, Kernel, Outcome, done, halted, panic, asleep, ◌>>=◌, ◌>>◌, return, modify, get, stop,
}

-- `buffer` and `bh` are the same number here, and `waiting` is never set.
pub record Request : Type 0 where
  pub dev : ℕ
  pub cmd : ℕ
  pub errors : ℕ
  pub sector : ℕ
  pub nr_sectors : ℕ
  pub bh : ℕ

pub record BufferHead : Type 0 where
  pub b_dev : ℕ
  pub b_blocknr : ℕ
  pub b_uptodate : Bool
  pub b_dirt : Bool
  pub b_lock : Bool

-- `has_driver` says for which majors `request_fn` is not NULL.
pub record Block : Type 0 where
  pub request : List Request
  pub queue : ℕ → List ℕ
  pub has_driver : ℕ → Bool
  pub buffer : ℕ → BufferHead
  pub started : List ℕ

abbrev pub nr_request : ℕ
nr_request = 32

abbrev pub nr_blk_dev : ℕ
nr_blk_dev = 7

-- READ, WRITE, READA and WRITEA
abbrev pub read : ℕ
read = 0

abbrev pub write : ℕ
write = 1

abbrev pub reada : ℕ
reada = 2

abbrev pub writea : ℕ
writea = 3

abbrev pub major : ℕ → ℕ
major dev = dev / 2 ^ 8

abbrev pub no_request : Request
no_request = record { dev = minus_one; cmd = 0; errors = 0; sector = 0; nr_sectors = 0; bh = 0 }

abbrev pub request_at : Block → ℕ → Request
request_at s i = get_or s.request i no_request

abbrev pub update {ℓ} : {A : Type ℓ} → (ℕ → A) → ℕ → A → ℕ → A
update f i a j = if i == j then a else f j

abbrev pub set_buffer : ℕ → BufferHead → Block → Block
set_buffer b h s = record s { buffer = update s.buffer b h }

-- IN_ORDER
unfoldable pub in_order : Request → Request → Bool
in_order s1 s2 =
    slt s1.cmd s2.cmd
    || ((s1.cmd == s2.cmd)
        && (slt s1.dev s2.dev || ((s1.dev == s2.dev) && ltb s1.sector s2.sector)))

-- The loop of `add_request` from `tmp` on, for what follows `tmp` in the list.
unfoldable pub place : (ℕ → Request) → ℕ → ℕ → List ℕ → List ℕ
place r req tmp [] = req ∷ []
place r req tmp (next ∷ rest) =
    if (in_order (r tmp) (r req) || not (in_order (r tmp) (r next))) && in_order (r req) (r next)
    then req ∷ next ∷ rest
    else next ∷ place r req next rest

-- The list after `add_request`, and whether the device has to be started.
abbrev pub enqueue : (ℕ → Request) → ℕ → List ℕ → List ℕ × Bool
enqueue r req [] = (req ∷ [], true)
enqueue r req (tmp ∷ rest) = (tmp ∷ place r req tmp rest, false)

unfoldable pub add_request : ℕ → ℕ → Block → Block
add_request dev req s =
    let b = (request_at s req).bh in
    let (queue, start) = enqueue (request_at s) req (s.queue dev) in
    record s {
      buffer = update s.buffer b (record (s.buffer b) { b_dirt = false });
      queue = update s.queue dev queue;
      started = if start then dev ∷ s.started else s.started;
    }

abbrev pub lock_buffer : ℕ → Kernel Block (Unit {0})
lock_buffer b s =
    if (s.buffer b).b_lock
    then halted asleep s
    else done tt (set_buffer b (record (s.buffer b) { b_lock = true }) s)

abbrev pub unlock_buffer : ℕ → Kernel Block (Unit {0})
unlock_buffer b s = done tt (set_buffer b (record (s.buffer b) { b_lock = false }) s)

-- `while (--req >= request) if (req->dev<0) break;` from `n` down.
unfoldable pub find_free : List Request → ℕ → Option ℕ
find_free requests zero = none
find_free requests (suc n) =
    let rest = find_free requests n in
    if is_neg (get_or requests n no_request).dev then some n else rest

abbrev pub new_request : ℕ → ℕ → BufferHead → Request
new_request rw b h = record {
  dev = h.b_dev;
  cmd = rw;
  errors = 0;
  sector = mul32 h.b_blocknr 2;
  nr_sectors = 2;
  bh = b;
}

-- What follows the lock: `ahead` is `rw_ahead`.
unfoldable pub queue_request : ℕ → ℕ → Bool → ℕ → Kernel Block (Unit {0})
queue_request dev rw ahead b s =
    let h = s.buffer b in
    if ((rw == write) && not h.b_dirt) || ((rw == read) && h.b_uptodate)
    then unlock_buffer b s
    else elim (find_free s.request (if rw == read then nr_request else nr_request * 2 / 3)) [
      | none ↦ if ahead then unlock_buffer b s else halted asleep s
      | some req ↦
          done tt
            (add_request dev req (record s { request = set s.request req (new_request rw b h) }))
    ]

unfoldable pub make_request : ℕ → ℕ → ℕ → Kernel Block (Unit {0})
make_request dev rw b s =
    let ahead = (rw == reada) || (rw == writea) in
    let rw' = if rw == reada then read else if rw == writea then write else rw in
    if ahead && (s.buffer b).b_lock
    then done tt s
    else if not (rw' == read) && not (rw' == write)
    then halted panic s
    else (lock_buffer b >> queue_request dev rw' ahead b) s

unfoldable pub ll_rw_block : ℕ → ℕ → Kernel Block (Unit {0})
ll_rw_block rw b s =
    let dev = major (s.buffer b).b_dev in
    if leb nr_blk_dev dev || not (s.has_driver dev) then done tt s else make_request dev rw b s

unfoldable pub blk_dev_init : Block → Block
blk_dev_init s = record s { request = replicate nr_request no_request }

-- `end_request` of the driver of `dev`, for its first request.
unfoldable pub end_request : ℕ → Bool → Kernel Block (Unit {0})
end_request dev uptodate s = elim (s.queue dev) [
  | [] ↦ halted panic s
  | req ∷ rest ↦
      let b = (request_at s req).bh in
      done tt (record s {
        buffer = update s.buffer b (record (s.buffer b) { b_uptodate = uptodate; b_lock = false });
        request = set s.request req (record (request_at s req) { dev = minus_one });
        queue = update s.queue dev rest;
      })
]
