-- ===== src/Tunnel/Sender.antt =====
-- service/tunnel.go: `backgroundOutboundHandler` and `readBatchFromChan`. A stream is whether it is
-- limited; opening one and writing to it have results that the network decides.
use gravil.Base.{
  ℕ, zero, suc, ◌+◌, Bool, true, false, Option, none, some, List, [], ◌∷◌, ◌++◌, length, leb, eqb,
  if◌then◌else◌,
}
use gravil.Tunnel.Receive.{send_packets}

-- `5 << 30 / vpn.InterfaceMTU` and `20 << 20 / vpn.InterfaceMTU`.
abbrev pub max_packets_per_unlimited_stream : ℕ
max_packets_per_unlimited_stream = 1533916

abbrev pub max_packets_per_limited_stream : ℕ
max_packets_per_limited_stream = 5991

abbrev pub packets_batch_size : ℕ
packets_batch_size = 100

-- `is_open` is whether `stream` is not nil; `written` holds what each successful write sent.
pub record Sender : Type 0 where
  pub is_open : Bool
  pub max_packets : ℕ
  pub current : ℕ
  pub written : List (List ℕ)

abbrev pub new_sender : Sender
new_sender = record { is_open = false; max_packets = 0; current = 0; written = [] }

unfoldable pub close_stream : Sender → Sender
close_stream s = record s { is_open = false; current = 0 }

-- `readBatchFromChan` with a buffer of `space` free places: the batch and the rest of the queue.
unfoldable pub read_batch : ℕ → List (List ℕ) → List (List ℕ) × List (List ℕ)
read_batch zero queue = ([], queue)
read_batch (suc space) [] = ([], [])
read_batch (suc space) (p ∷ queue) = let (batch, rest) = read_batch space queue in (p ∷ batch, rest)

-- What the network does with a batch: the connection, a new stream (whether it is limited), the write.
pub record Attempt : Type 0 where
  pub connected : Bool
  pub opened : Option Bool
  pub write_ok : Bool

-- `makeTunnelStream` and the choice of the maximum, if there is no stream.
unfoldable pub open_stream : Option Bool → Sender → Option Sender
open_stream o s = if s.is_open then some s else made o
  where
    made : Option Bool → Option Sender
    made none = none
    made (some limited) = some (record s {
      is_open = true;
      max_packets =
          if limited then max_packets_per_limited_stream else max_packets_per_unlimited_stream;
    })

-- The write behind it; any error closes the stream.
unfoldable pub write_batch : Bool → List (List ℕ) → Sender → Option Sender → Sender
unfolding close_stream
write_batch ok batch s none = close_stream s
write_batch ok batch s (some s') =
    if ok then record s' { written = s'.written ++ send_packets [] batch ∷ [] } else close_stream s'

-- One batch, as the select's first case treats it.
unfoldable pub send_batch : Attempt → List (List ℕ) → Sender → Sender
unfolding write_batch open_stream close_stream
send_batch net batch s =
    let n = length batch in
    let fresh = if leb s.max_packets (s.current + n) then close_stream s else s in
    let counted : Sender = record fresh { current = fresh.current + n } in
    if net.connected
    then write_batch net.write_ok batch counted (open_stream net.opened counted)
    else s

-- The idle ticker with a queue of this length.
unfoldable pub idle_tick : ℕ → Sender → Sender
unfolding close_stream
idle_tick queued s = if eqb queued 0 then close_stream s else s
