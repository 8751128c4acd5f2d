-- ===== src/RingBuffer.antt =====
-- ringbuffer/ring_buffer.go: the log buffer, an array of twice the size with a write position.
-- `Capacity` returns the field `size`. The mutex makes each method one step.
pub mod Array
pub mod Window
pub mod Examples
use gravil.Base.{
  ℕ, ◌+◌, ◌-◌, ◌*◌, ◌/◌, min, List, [], ◌++◌, length, take, drop, replicate, ltb, eqb,
  if◌then◌else◌,
}

pub record RingBuffer : Type 0 where
  pub buf : List ℕ
  pub size : ℕ
  pub pos : ℕ

pub new : ℕ → RingBuffer
new size = record { buf = replicate (size * 2) 0; size = size; pos = 0 }

-- `copy(buf[off:], src)`: what does not fit is left out, what lies behind is kept.
pub copy_at : List ℕ → ℕ → List ℕ → List ℕ
copy_at buf off src = take off buf ++ (take (length buf - off) src ++ drop (off + length src) buf)

-- The test against the filling rate, and the move of the newest bytes to the front.
compact : RingBuffer → RingBuffer
compact r =
    if ltb (r.size * 17 / 10) r.pos
    then record r {
      buf = copy_at r.buf 0 (take r.size (drop (r.pos - r.size) r.buf));
      pos = r.size;
    }
    else r

append : RingBuffer → List ℕ → RingBuffer × ℕ
append r p =
    let n = min (length r.buf - r.pos) (length p) in
    (record r { buf = copy_at r.buf r.pos p; pos = r.pos + n }, n)

-- The new buffer and `n`; the error is always nil.
pub write : RingBuffer → List ℕ → RingBuffer × ℕ
write r p = if eqb (length p) 0 then (r, 0) else append (compact r) p

-- `firstIndex` is set to 0 where the subtraction is negative, as `-` on ℕ does.
pub bytes : RingBuffer → List ℕ
bytes r =
    if eqb r.pos 0
    then []
    else let first = r.pos - r.size in take (r.pos - first) (drop first r.buf)

pub reset : RingBuffer → RingBuffer
reset r = record r { pos = 0 }
