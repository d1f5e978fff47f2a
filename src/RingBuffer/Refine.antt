-- ===== src/RingBuffer/Refine.antt =====
-- kernel/src/core/ring_buffer.c behaves as the bounded FIFO of kernel/include/core/ring_buffer.h.
use native.Mathlib.Nat.{mod-add-mod, mod-eq_of_lt, mod-eq-sub-mod}
use native.Mathlib.Decide.{dec_lt, ℕ_discrete}
use pros.Common.{
  ℕ, zero, suc, ◌+◌, ◌-◌, ◌%◌, ◌≤◌, ◌<◌, ◌≡◌, refl, sym, ap, ◌∙◌, ◌≢◌, some, List, [], ◌∷◌, ◌++◌,
  arith, length, get_or, set, length-set, get_or-set_self, get_or-set_ne, u64_mod, add64, eq→==,
  ne→==,
}
use pros.RingBuffer.{RingBuffer, push, pop, init, run}
use pros.RingBuffer.Fifo.{Op, fifo_push, fifo_pop, fifo_run}

-- The state between two calls: the storage is there, the indices are inside it, and `tail` is where
-- `count` says.
pub record IsValid (rb : RingBuffer) : Type 0 where
  pub storage : rb.capacity ≤ length rb.buf
  pub fits : rb.capacity < u64_mod
  pub head_in : rb.head < rb.capacity
  pub tail_in : rb.tail < rb.capacity
  pub count_in : rb.count ≤ rb.capacity
  pub tail_at : rb.tail ≡ (rb.head + rb.count) % rb.capacity

-- The bytes at `n` slots from `i` on, round the end of the storage.
module _ (buf : List ℕ) (capacity : ℕ) where
  abbrev pub slots : ℕ → ℕ → List ℕ
  slots i zero = []
  slots i (suc n) = get_or buf i 0 ∷ slots ((i + 1) % capacity) n

  length-slots : (i n : ℕ) → length (slots i n) ≡ n
  length-slots i zero = refl
  length-slots i (suc n) = ap suc (length-slots ((i + 1) % capacity) n)

  slots_of_pos : (i n : ℕ) → n ≢ 0 → slots i n ≡ get_or buf i 0 ∷ slots ((i + 1) % capacity) (n - 1)
  slots_of_pos i zero h = absurd (h refl)
  slots_of_pos i (suc n) h = ap (λ k. slots i (suc k)) (omega arith)

-- The queued bytes, oldest first.
abbrev pub contents : RingBuffer → List ℕ
contents rb = slots rb.buf rb.capacity rb.head rb.count

-- Fewer steps than the capacity do not lead round to the start.
ring_step_ne : (capacity i k : ℕ) → i < capacity → suc k < capacity → (i + suc k) % capacity ≢ i
ring_step_ne capacity i k hi hk = elim (dec_lt (i + suc k) capacity) [
  | yes p ↦ omega (arith, mod-eq_of_lt p)
  | no p ↦ omega (
    arith,
    mod-eq-sub-mod {n = i + suc k} {m = capacity} (omega arith),
    mod-eq_of_lt {n = i + suc k - capacity} {m = capacity} (omega arith),
  )
]

ring_shift : (capacity i n : ℕ) → (i + suc n) % capacity ≡ ((i + 1) % capacity + n) % capacity
ring_shift capacity i n = rw mod-add-mod (ap (λ k. k % capacity) (omega arith))

-- A byte written just behind the queued slots is queued last.
slots-set :
    (buf : List ℕ) (capacity n i j byte : ℕ)
    → capacity ≤ length buf
    → i < capacity
    → n < capacity
    → j ≡ (i + n) % capacity
    → slots (set buf j byte) capacity i (suc n) ≡ slots buf capacity i n ++ (byte ∷ [])
slots-set buf capacity zero i j byte hs hi hn e =
    let e' : j ≡ i = omega (arith, mod-eq_of_lt {n = i + 0} {m = capacity} (omega arith)) in
    rw (e', get_or-set_self buf i byte 0 (omega arith))
slots-set buf capacity (suc n) i j byte hs hi hn e =
    let apart : j ≢ i = rw e (ring_step_ne capacity i n hi hn) in
    let rest =
      slots-set buf capacity n ((i + 1) % capacity) j byte hs (omega arith) (omega arith)
        (e ∙ ring_shift capacity i n) in
    rw (get_or-set_ne buf j i byte 0 apart) (ap (λ t. get_or buf i 0 ∷ t) rest)

module _ {rb : RingBuffer} (v : IsValid rb) (byte : ℕ) where
  stored : RingBuffer
  stored = record rb {
    buf = set rb.buf rb.tail byte;
    tail = add64 rb.tail 1 % rb.capacity;
    count = add64 rb.count 1;
  }

  tail_step :
      rb.count ≢ rb.capacity
      → (rb.tail + 1) % rb.capacity ≡ (rb.head + (rb.count + 1)) % rb.capacity
  tail_step h = rw v.tail_at (rw mod-add-mod (ap (λ k. k % rb.capacity) (omega arith)))

  stored-IsValid : rb.count ≢ rb.capacity → IsValid stored
  unfolding stored
  stored-IsValid h = ground (arith, tail_step h, length-set rb.buf rb.tail byte)

  contents-stored : rb.count ≢ rb.capacity → contents stored ≡ contents rb ++ (byte ∷ [])
  unfolding stored
  contents-stored h =
      let e : add64 rb.count 1 ≡ suc rb.count = omega arith in
      rw e (
        slots-set rb.buf rb.capacity rb.count rb.head rb.tail byte v.storage v.head_in (omega arith)
          v.tail_at)

  push_lem :
      (rb' : RingBuffer) × (push (some rb) byte
        ≡ (some rb', (fifo_push rb.capacity (contents rb) byte).1))
      × (contents rb' ≡ (fifo_push rb.capacity (contents rb) byte).0)
      × IsValid rb'
      × (rb'.capacity ≡ rb.capacity)
  unfolding push fifo_push stored
  push_lem =
      let size = length-slots rb.buf rb.capacity rb.head rb.count in
      elim (ℕ_discrete rb.count rb.capacity) [
        | yes e ↦
            let full = eq→== rb.count rb.capacity e in rw (size, full) (rb, refl, refl, v, refl)
        | no ne ↦
            let room = ne→== rb.count rb.capacity ne in
            rw (size, room) (stored, refl, contents-stored ne, stored-IsValid ne, refl)
      ]

module _ {rb : RingBuffer} (v : IsValid rb) (old : ℕ) where
  taken : RingBuffer
  taken = record rb { head = add64 rb.head 1 % rb.capacity; count = rb.count - 1 }

  taken-IsValid : rb.count ≢ 0 → IsValid taken
  unfolding taken
  taken-IsValid h = record {
    storage = v.storage;
    fits = v.fits;
    head_in = omega arith;
    tail_in = v.tail_in;
    count_in = omega arith;
    tail_at = step;
  }
    where
      exact : add64 rb.head 1 ≡ rb.head + 1
      exact = omega arith

      step : rb.tail ≡ (add64 rb.head 1 % rb.capacity + (rb.count - 1)) % rb.capacity
      step = rw (v.tail_at, exact, mod-add-mod) (ap (λ k. k % rb.capacity) (omega arith))

  contents-taken : rb.count ≢ 0 → contents rb ≡ get_or rb.buf rb.head 0 ∷ contents taken
  unfolding taken
  contents-taken h =
      let exact : add64 rb.head 1 ≡ rb.head + 1 = omega arith in
      rw exact (slots_of_pos rb.buf rb.capacity rb.head rb.count h)

  pop_lem :
      (rb' : RingBuffer) × (pop (some rb) (some old)
        ≡ (some rb', (fifo_pop (contents rb) old).1, (fifo_pop (contents rb) old).2))
      × (contents rb' ≡ (fifo_pop (contents rb) old).0)
      × IsValid rb'
      × (rb'.capacity ≡ rb.capacity)
  unfolding pop fifo_pop taken
  pop_lem = elim (ℕ_discrete rb.count 0) [
    | yes e ↦
        let empty = eq→== rb.count 0 e in
        let nothing : contents rb ≡ [] = rw e refl in
        rw (nothing, empty) (rb, refl, nothing, v, refl)
    | no ne ↦
        let some_left = ne→== rb.count 0 ne in
        rw (contents-taken ne, some_left) (taken, refl, refl, taken-IsValid ne, refl)
  ]

-- `ring_buffer_init` over storage of at least `capacity` bytes makes a valid empty ring, whatever
-- the ring held before; with no storage or no capacity it changes nothing.
pub init_lem :
    (rb : RingBuffer) (buf : List ℕ) (capacity : ℕ)
    → capacity ≤ length buf
    → capacity < u64_mod
    → 0 < capacity
    → (rb' : RingBuffer) × (init (some rb) (some buf) capacity ≡ some rb')
      × IsValid rb'
      × (contents rb' ≡ [])
      × (rb'.capacity ≡ capacity)
unfolding init
init_lem rb buf capacity h k pos = rw (ne→== capacity 0 (omega arith)) (
  record { buf = buf; capacity = capacity; head = 0; tail = 0; count = 0 },
  refl,
  record {
    storage = h;
    fits = k;
    head_in = pos;
    tail_in = pos;
    count_in = omega arith;
    tail_at = sym (mod-eq_of_lt pos);
  },
  refl,
  refl,
)

-- No sequence of pushes and pops through a pointer to a valid ring can be told from the same
-- sequence on a FIFO of `capacity` bytes that starts with the ring's contents.
pub run_refines :
    (ops : List Op) {rb : RingBuffer}
    → IsValid rb
    → run (some rb) ops ≡ fifo_run rb.capacity (contents rb) ops
unfolding run fifo_run
run_refines [] v = refl
run_refines (Op.push byte ∷ ops) v =
    let (rb', call, now, v', same) = push_lem v byte in rw (call, run_refines ops v', now, same)
run_refines (Op.pop old ∷ ops) v =
    let (rb', call, now, v', same) = pop_lem v old in rw (call, run_refines ops v', now, same)
