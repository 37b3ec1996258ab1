-- ===== src/Connections/Ring.antt =====
-- The ring of src/server/server.c as a queue, first in, first out.
use gargantua.Common.{
  ℕ, zero, suc, ◌+◌, ◌-◌, ◌%◌, ◌≤◌, ◌<◌, Bool, true, false, Option, none, some, List, [], ◌∷◌, ◌++◌,
  length, length-set, set, ltb, if◌then◌else◌, Bool-cases, ltb→lt, le_of_ltb-false, ◌≡◌, ◌≢◌, inl,
  inr, refl, ap, ◌∙◌, arith,
}
use gargantua.Connections.{queue_size, ConnQueue, at, queue_push, queue_pop}

-- The connections from the index `head` on, in their order.
abbrev pub window : List ℕ → List ℕ → ℕ → ℕ → List (ℕ × ℕ)
window fds ips head zero = []
window fds ips head (suc n) =
    (at fds head, at ips head) ∷ window fds ips ((head + 1) % queue_size) n

abbrev pub queued : ConnQueue → List (ℕ × ℕ)
queued q = window q.fds q.ips q.head q.count

pub record IsRing (q : ConnQueue) : Type 0 where
  pub size : (length q.fds ≡ queue_size) × (length q.ips ≡ queue_size)
  pub head_in : q.head < queue_size
  pub few : q.count ≤ queue_size
  pub tail_at : q.tail ≡ (q.head + q.count) % queue_size

at-set_self : (xs : List ℕ) (i x : ℕ) → i < length xs → at (set xs i x) i ≡ x
at-set_self [] i x h = absurd (omega (arith, h))
at-set_self (y ∷ xs) zero x h = refl
at-set_self (y ∷ xs) (suc i) x h = at-set_self xs i x (omega (arith, h))

at-set_other : (xs : List ℕ) (i j x : ℕ) → i ≢ j → at (set xs i x) j ≡ at xs j
at-set_other [] i j x h = refl
at-set_other (y ∷ xs) zero zero x h = absurd (h refl)
at-set_other (y ∷ xs) zero (suc j) x h = refl
at-set_other (y ∷ xs) (suc i) zero x h = refl
at-set_other (y ∷ xs) (suc i) (suc j) x h = at-set_other xs i j x (λ e. h (omega (arith, e)))

-- Writing behind a window makes it longer by one.
window-set :
    (fds ips : List ℕ) (fd ip head n tail : ℕ)
    → length fds ≡ queue_size
    → length ips ≡ queue_size
    → head < queue_size
    → n < queue_size
    → tail ≡ (head + n) % queue_size
    → window (set fds tail fd) (set ips tail ip) head (suc n)
      ≡ window fds ips head n ++ ((fd, ip) ∷ [])
window-set fds ips fd ip head zero tail sf si h few e =
    let here : tail ≡ head = omega (arith, e, h) in
    rw
      (
        here,
        at-set_self fds head fd (omega (arith, h, sf)),
        at-set_self ips head ip (omega (arith, h, si)),
      )
      refl
window-set fds ips fd ip head (suc n) tail sf si h few e =
    let other : tail ≢ head = λ z. omega (arith, z, e, h, few) in
    let next : (head + 1) % queue_size < queue_size = omega arith in
    let ih =
      window-set fds ips fd ip ((head + 1) % queue_size) n tail sf si next (omega (arith, few))
        (omega (arith, e)) in
    rw (at-set_other fds tail head fd other, at-set_other ips tail head ip other)
      (ap (λ l. (at fds head, at ips head) ∷ l) ih)

-- The abstract queue.
unfoldable pub fifo_push : List (ℕ × ℕ) → ℕ × ℕ → Bool × List (ℕ × ℕ)
fifo_push waiting connection =
    if ltb (length waiting) queue_size
    then (true, waiting ++ (connection ∷ []))
    else (false, waiting)

pub fifo_pop : List (ℕ × ℕ) → Option (ℕ × ℕ) × List (ℕ × ℕ)
fifo_pop [] = (none, [])
fifo_pop (connection ∷ waiting) = (some connection, waiting)

pub length-window : (fds ips : List ℕ) (head n : ℕ) → length (window fds ips head n) ≡ n
length-window fds ips head zero = refl
length-window fds ips head (suc n) = ap suc (length-window fds ips ((head + 1) % queue_size) n)

pub window-none : (fds ips : List ℕ) (head n : ℕ) → n ≡ 0 → window fds ips head n ≡ []
window-none fds ips head zero e = refl
window-none fds ips head (suc n) e = absurd (omega (arith, e))

pub window-first :
    (fds ips : List ℕ) (head n : ℕ)
    → 0 < n
    → window fds ips head n
      ≡ (at fds head, at ips head) ∷ window fds ips ((head + 1) % queue_size) (n - 1)
window-first fds ips head zero h = absurd (omega (arith, h))
window-first fds ips head (suc n) h = let e : suc n - 1 ≡ n = omega arith in rw e refl

pub queue_push-fifo :
    (q : ConnQueue) (fd ip : ℕ)
    → IsRing q
    → IsRing ((queue_push q fd ip).1)
      × (((queue_push q fd ip).0, queued ((queue_push q fd ip).1)) ≡ fifo_push (queued q) (fd, ip))
unfolding queue_push fifo_push
queue_push-fifo q fd ip ring = elim (Bool-cases (ltb q.count queue_size)) [
  | inl e ↦
      let one_more : q.count + 1 ≡ suc q.count = omega arith in
      rw (e, length-window q.fds q.ips q.head q.count, e, one_more)
        (
          record {
            size = (
              length-set q.fds q.tail fd ∙ ring.size.0,
              length-set q.ips q.tail ip ∙ ring.size.1,
            );
            head_in = ring.head_in;
            few = ltb→lt q.count queue_size e;
            tail_at = omega (arith, ring.tail_at);
          },
          ap (λ l. (true, l))
              (window-set q.fds q.ips fd ip q.head q.count q.tail (ring.size.0) (ring.size.1)
                ring.head_in (ltb→lt q.count queue_size e) ring.tail_at),
        )
  | inr e ↦ rw (e, length-window q.fds q.ips q.head q.count, e) (ring, refl)
]

pub queue_pop-fifo :
    (q : ConnQueue)
    → IsRing q
    → IsRing ((queue_pop q).1) × (((queue_pop q).0, queued ((queue_pop q).1)) ≡ fifo_pop (queued q))
unfolding queue_pop fifo_pop
queue_pop-fifo q ring = elim (Bool-cases (ltb 0 q.count)) [
  | inl e ↦
      rw (e, window-first q.fds q.ips q.head q.count (ltb→lt 0 q.count e))
        (
          record {
            size = ring.size;
            head_in = omega arith;
            few = omega (arith, ring.few);
            tail_at = omega (arith, ring.tail_at, ltb→lt 0 q.count e);
          },
          refl,
        )
  | inr e ↦
      let none_left : q.count ≡ 0 = omega (arith, le_of_ltb-false 0 q.count e) in
      rw (e, window-none q.fds q.ips q.head q.count none_left) (ring, refl)
]

-- What threads call, in the order of the lock, and what the calls return.
pub data Call : Type 0 where
  push : ℕ → ℕ → Call
  pop : Call

pub data Returned : Type 0 where
  pushed : Bool → Returned
  popped : Option (ℕ × ℕ) → Returned

pub ring_calls : List Call → ConnQueue → List Returned
ring_calls [] q = []
ring_calls (push fd ip ∷ calls) q =
    Returned.pushed ((queue_push q fd ip).0) ∷ ring_calls calls ((queue_push q fd ip).1)
ring_calls (pop ∷ calls) q = Returned.popped ((queue_pop q).0) ∷ ring_calls calls ((queue_pop q).1)

pub fifo_calls : List Call → List (ℕ × ℕ) → List Returned
fifo_calls [] waiting = []
fifo_calls (push fd ip ∷ calls) waiting =
    Returned.pushed ((fifo_push waiting (fd, ip)).0)
    ∷ fifo_calls calls ((fifo_push waiting (fd, ip)).1)
fifo_calls (pop ∷ calls) waiting =
    Returned.popped ((fifo_pop waiting).0) ∷ fifo_calls calls ((fifo_pop waiting).1)

-- From a well-formed ring, every sequence of calls of `queue_push` and `queue_pop` returns what the abstract queue
-- of 64 connections returns, that is first in, first out, with a push refused just when 64 wait.
pub ring_calls-fifo :
    (calls : List Call) (q : ConnQueue)
    → IsRing q
    → ring_calls calls q ≡ fifo_calls calls (queued q)
unfolding ring_calls fifo_calls
ring_calls-fifo [] q ring = refl
ring_calls-fifo (push fd ip ∷ calls) q ring =
    let (next, same) = queue_push-fifo q fd ip ring in
    rw⁻¹ same (
      ap (◌∷◌ (Returned.pushed ((queue_push q fd ip).0)))
        (ring_calls-fifo calls ((queue_push q fd ip).1) next))
ring_calls-fifo (pop ∷ calls) q ring =
    let (next, same) = queue_pop-fifo q ring in
    rw⁻¹ same
      (ap (◌∷◌ (Returned.popped ((queue_pop q).0))) (ring_calls-fifo calls ((queue_pop q).1) next))
