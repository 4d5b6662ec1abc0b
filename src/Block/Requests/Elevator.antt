-- ===== src/Block/Requests/Elevator.antt =====
-- The order of a queue: the head goes over the disk and starts again once at most.
use linux_0_11_read.Prelude.{
  ℕ, ◌+◌, ◌≤◌, ◌≡◌, ◌⊎◌, inl, inr, refl, List, [], ◌∷◌, true, false, ◌==◌, if◌then◌else◌, arith,
  Bool-cases,
}
use linux_0_11_read.Block.Requests.{Request, Block, request_at, in_order, place, add_request}

-- Requests of different places are in order one way or the other.
abbrev pub Apart : Request → Request → Type 0
Apart a b = (in_order a b ≡ true) ⊎ (in_order b a ≡ true)

in_order-asym : (a b : Request) → in_order a b ≡ true → in_order b a ≡ false
unfolding in_order
in_order-asym a b h = ground (arith, h)

-- How often the order starts again in the list from `tmp` on.
unfoldable pub restarts : (ℕ → Request) → ℕ → List ℕ → ℕ
restarts r tmp [] = 0
restarts r tmp (next ∷ rest) = (if in_order (r tmp) (r next) then 0 else 1) + restarts r next rest

abbrev pub AllApart : (ℕ → Request) → ℕ → List ℕ → Type 0
AllApart r req [] = Unit {0}
AllApart r req (x ∷ l) = Apart (r x) (r req) × AllApart r req l

behind-in_order :
    (r : ℕ → Request) (req next : ℕ)
    → Apart (r next) (r req)
    → in_order (r req) (r next) ≡ false
    → in_order (r next) (r req) ≡ true
behind-in_order r req next (inl h) e = h
behind-in_order r req next (inr h) e = cc

-- Behind a request that comes before the new one, no restart is added.
place-after :
    (r : ℕ → Request) (req tmp : ℕ) (l : List ℕ)
    → AllApart r req l
    → in_order (r tmp) (r req) ≡ true
    → restarts r tmp (place r req tmp l) ≤ restarts r tmp l
unfolding place restarts
place-after r req tmp [] apart h = rw h (omega arith)
place-after r req tmp (next ∷ rest) (here, apart) h =
    elim (Bool-cases (in_order (r req) (r next))) [
      | inl before ↦ rw (h, before) (ground (arith, before, h))
      | inr behind ↦
          let ih = place-after r req next rest apart (behind-in_order r req next here behind) in
          ground (arith, h, behind, ih)
    ]

-- Behind one that comes after it, one is, if there was none.
place-before :
    (r : ℕ → Request) (req tmp : ℕ) (l : List ℕ)
    → AllApart r req l
    → in_order (r req) (r tmp) ≡ true
    → (restarts r tmp (place r req tmp l) ≤ restarts r tmp l)
      ⊎ (restarts r tmp (place r req tmp l) ≤ 1)
unfolding place restarts
place-before r req tmp [] apart h = inr (ground (arith, h))
place-before r req tmp (next ∷ rest) (here, apart) h =
    elim (Bool-cases (in_order (r req) (r next))) [
      | inr behind ↦
          let ih = place-after r req next rest apart (behind-in_order r req next here behind) in
          inl (ground (arith, behind, ih))
      | inl before ↦
          let wrong = in_order-asym (r req) (r tmp) h in
          elim (Bool-cases (in_order (r tmp) (r next))) [
            | inl up ↦
                let ih = place-before r req next rest apart before in
                ground (arith, before, wrong, up, ih)
            | inr down ↦ inl (ground (arith, before, wrong, down))
          ]
    ]

unfoldable pub times : ℕ → List ℕ → ℕ
times i [] = 0
times i (x ∷ l) = (if i == x then 1 else 0) + times i l

pub times-place :
    (r : ℕ → Request) (req tmp i : ℕ) (l : List ℕ) → times i (place r req tmp l) ≡ times i (req ∷ l)
unfolding place times
times-place r req tmp i [] = refl
times-place r req tmp i (next ∷ rest) = ground (arith, times-place r req next i rest)

-- add_request to a queue that is not empty, of requests that all differ from the new one in order,
-- keeps the first request first, adds the new one once, loses none, and leaves the order with one
-- restart at most if it had one at most.
pub add_request-restarts :
    (dev req head : ℕ) (rest : List ℕ) (s : Block)
    → s.queue dev ≡ head ∷ rest
    → AllApart (request_at s) req (head ∷ rest)
    → restarts (request_at s) head rest ≤ 1
    → (rest' : List ℕ) × ((add_request dev req s).queue dev ≡ head ∷ rest')
      × (restarts (request_at s) head rest' ≤ 1)
      × ((i : ℕ) → times i (head ∷ rest') ≡ times i (req ∷ head ∷ rest))
unfolding add_request times
add_request-restarts dev req head rest s e (here, apart) one = (
  place (request_at s) req head rest,
  rw e (ground arith),
  elim here [
    | inl up ↦ omega (arith, place-after (request_at s) req head rest apart up)
    | inr down ↦ ground (arith, place-before (request_at s) req head rest apart down)
  ],
  λ i. omega (arith, times-place (request_at s) req head i rest),
)
