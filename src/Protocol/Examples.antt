-- ===== src/Protocol/Examples.antt =====
-- protocol/protocol.go: a frame in two chunks, and the theorems at it.
use gravil.Base.{ℕ, ◌≡◌, ◌≤◌, refl, List, [], ◌∷◌, ◌++◌, arith, length, take, drop}
use gravil.Protocol.{put_uint64}
use gravil.Protocol.Reader.{Stream, at_end, flat, read_full_from, ok, read_full_from-flat}

abbrev two_chunks : List (List ℕ)
two_chunks = (0 ∷ 0 ∷ 0 ∷ []) ∷ (0 ∷ 0 ∷ 0 ∷ 1 ∷ 44 ∷ 9 ∷ []) ∷ []

abbrev stream : Stream
stream = record { chunks = two_chunks; ending = at_end }

carries : flat stream.chunks ≡ put_uint64 300 ++ 9 ∷ []
unfolding put_uint64
carries = refl

read_full_from-flat_example :
    (rest : List (List ℕ)) × (read_full_from 4 [] two_chunks at_end
      ≡ (ok (take 4 (flat two_chunks)), record { chunks = rest; ending = at_end }))
    × (flat rest ≡ drop 4 (flat two_chunks))
    × (length rest ≤ 2)
read_full_from-flat_example = read_full_from-flat 4 [] two_chunks at_end (omega arith)
