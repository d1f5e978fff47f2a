-- ===== src/RingBuffer.antt =====
-- kernel/src/core/ring_buffer.c: the byte FIFO over caller-owned storage. A pointer argument is an
-- `Option`, `none` for NULL; a function that writes through a pointer returns what it points to.
pub mod Fifo
pub mod Refine
mod Tests
use Fifo.{Op, Reply}
use pros.Common.{
  ℕ, ◌-◌, ◌%◌, Bool, true, false, Option, none, some, List, [], ◌∷◌, get_or, set, add64, ◌==◌, ◌||◌,
  if◌then◌else◌,
}

-- `struct ring_buffer`. The storage that `buf` points to is part of the value.
pub record RingBuffer : Type 0 where
  pub buf : List ℕ
  pub capacity : ℕ
  pub head : ℕ
  pub tail : ℕ
  pub count : ℕ

-- What `ring_buffer_init` leaves at `rb`, given what was there before.
pub init : Option RingBuffer → Option (List ℕ) → ℕ → Option RingBuffer
init none buf capacity = none
init (some rb) none capacity = some rb
init (some rb) (some buf) capacity =
    if capacity == 0
    then some rb
    else some (record { buf = buf; capacity = capacity; head = 0; tail = 0; count = 0 })

-- A write out of range changes nothing here; `IsValid.storage` and `IsValid.tail_in` rule it out.
pub push : Option RingBuffer → ℕ → Option RingBuffer × Bool
push none byte = (none, false)
push (some rb) byte = if rb.count == rb.capacity then (some rb, false) else (
  some (record rb {
    buf = set rb.buf rb.tail byte;
    tail = add64 rb.tail 1 % rb.capacity;
    count = add64 rb.count 1;
  }),
  true,
)

-- `out` is the byte that the pointer `out` points to, `none` for NULL.
pub pop : Option RingBuffer → Option ℕ → Option RingBuffer × Option ℕ × Bool
pop none out = (none, out, false)
pop (some rb) out = if rb.count == 0 then (some rb, out, false) else (
  some (record rb { head = add64 rb.head 1 % rb.capacity; count = rb.count - 1 }),
  store out (get_or rb.buf rb.head 0),
  true,
)
  where
    store : Option ℕ → ℕ → Option ℕ
    store none byte = none
    store (some old) byte = some byte

-- A client's calls in order on one ring, with what each returns and leaves in `*out`.
pub run : Option RingBuffer → List Op → List Reply
unfolding push pop
run rb [] = []
run rb (Op.push byte ∷ ops) = let (rb', done) = push rb byte in (done, none) ∷ run rb' ops
run rb (Op.pop old ∷ ops) = let (rb', out, done) = pop rb (some old) in (done, out) ∷ run rb' ops
