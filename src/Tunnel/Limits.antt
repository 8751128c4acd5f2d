-- ===== src/Tunnel/Limits.antt =====
-- service/tunnel.go: the limits of `backgroundOutboundHandler` on what one stream carries.
use gravil.Base.{
  ℕ, zero, suc, ◌≤◌, ◌<◌, ◌≡◌, ◌⊎◌, refl, ap, true, false, none, some, List, [], ◌∷◌, arith, length,
  take, drop,
}
use gravil.Tunnel.Sender.{
  max_packets_per_unlimited_stream, max_packets_per_limited_stream, packets_batch_size, Sender,
  close_stream, read_batch, Attempt, open_stream, write_batch, send_batch,
}

-- No stream and nothing counted, or fewer packets counted than one of the two maxima allows.
abbrev pub IsWithin : Sender → Type 0
IsWithin s =
    ((s.is_open ≡ false) × (s.current ≡ 0))
    ⊎ ((s.is_open ≡ true)
        × (s.current < s.max_packets)
        × ((s.max_packets ≡ max_packets_per_limited_stream)
            ⊎ (s.max_packets ≡ max_packets_per_unlimited_stream)))

-- Whatever the network does, a stream that is open has fewer packets counted than its maximum, after
-- each batch of at most a hundred packets.
pub send_batch-IsWithin :
    (net : Attempt) (batch : List (List ℕ)) (s : Sender)
    → length batch ≤ packets_batch_size
    → IsWithin s
    → IsWithin (send_batch net batch s)
unfolding send_batch write_batch open_stream close_stream
send_batch-IsWithin net batch s small h = elim net.opened [
  | none ↦ ground arith
  | some limited ↦ ground arith
]

-- A batch is the front of the queue, in order, of at most the given length; the rest stays queued.
pub read_batch_lem :
    (space : ℕ) (queue : List (List ℕ))
    → read_batch space queue ≡ (take space queue, drop space queue)
unfolding read_batch
read_batch_lem zero queue = refl
read_batch_lem (suc space) [] = refl
read_batch_lem (suc space) (p ∷ queue) = ap (λ r. (p ∷ r.0, r.1)) (read_batch_lem space queue)
