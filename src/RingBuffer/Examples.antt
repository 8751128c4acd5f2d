-- ===== src/RingBuffer/Examples.antt =====
-- ringbuffer/ring_buffer.go: the cases of ring_buffer_test.go.
use gravil.Base.{ℕ, ◌≡◌, refl, List, [], ◌∷◌}
use gravil.RingBuffer.{new, copy_at, compact, append, write, bytes}

abbrev digits : List ℕ
digits = 1 ∷ 2 ∷ 3 ∷ 4 ∷ 5 ∷ []

abbrev more : List ℕ
more = 6 ∷ 7 ∷ 8 ∷ []

writes_run : bytes (write (write (new 4) digits).0 more).0 ≡ 5 ∷ 6 ∷ 7 ∷ 8 ∷ []
unfolding new write compact append copy_at bytes
writes_run = refl
