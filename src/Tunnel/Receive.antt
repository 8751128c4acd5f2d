-- ===== src/Tunnel/Receive.antt =====
-- service/tunnel.go: `StreamHandler`, from the bytes of a stream to a peer's inbound queue, while no
-- other method changes the table.
use gravil.Base.{
  ℕ, zero, suc, ◌+◌, List, [], ◌∷◌, ◌++◌, length, Text, text_key, get, put, Option, none, some, ltb,
  if◌then◌else◌, is_some,
}
use gravil.Protocol.{Uint64Read, value, error, read_uint64, append_packet_to_buf}
use gravil.Protocol.Reader.{Stream, Ending}
use gravil.Packet.ReadFrom.{Outcome, received, broken, no_fuel, read_from}
use gravil.Tunnel.{VpnPeer, Tunnel, packet_handlers_chan_cap}

-- `int64(packetSize)` as the limit of a reader: a negative limit reads as the end.
abbrev pub limit_of : ℕ → ℕ
limit_of size = if ltb size 9223372036854775808 then size else 0

-- The packet from the limited reader; a round for each chunk and two are enough, unless the loop
-- never ends (ReadFrom.read_from_stuck).
unfoldable pub read_packet : ℕ → Stream → Outcome
unfolding read_from
read_packet size s = read_from (length s.chunks + 2) (limit_of size) [] s.chunks s.ending

-- The send without blocking to the inbound channel.
unfoldable pub accept : List ℕ → VpnPeer → VpnPeer
accept bs p =
    if ltb (length p.inbound) packet_handlers_chan_cap
    then record p { inbound = p.inbound ++ bs ∷ [] }
    else p

-- The handler returns when the peer is gone.
unfoldable pub accept_for : Text → List ℕ → Option VpnPeer → Tunnel → Option Tunnel
unfolding accept
accept_for id bs none t = none
accept_for id bs (some p) t = some (record t { peers = put id (accept bs p) t.peers })

unfoldable pub receive_packet : Text → List ℕ → Tunnel → Option Tunnel
unfolding accept_for
receive_packet id bs t = accept_for id bs (get id t.peers) t

-- One round behind a size that was read; `again` is the rest of the loop. Each `some` is a return of
-- the handler; a packet whose loop needs more rounds than it was given is no return.
unfoldable pub on_accepted : (Tunnel → Option Tunnel) → Tunnel → Option Tunnel → Option Tunnel
on_accepted again t none = some t
on_accepted again t (some t') = again t'

unfoldable pub on_packet :
    (Stream → Tunnel → Option Tunnel) → Text → Ending → Tunnel → Outcome → Option Tunnel
unfolding on_accepted receive_packet
on_packet again id e t (received bs cs) =
    on_accepted (again (record { chunks = cs; ending = e })) t (receive_packet id bs t)
on_packet again id e t broken = some t
on_packet again id e t no_fuel = none

unfoldable pub on_size :
    (Stream → Tunnel → Option Tunnel) → Text → Tunnel → Uint64Read → Option Tunnel
unfolding on_packet read_packet
on_size again id t (value size rest) = on_packet again id rest.ending t (read_packet size rest)
on_size again id t (error e) = some t

-- The loop; `none` where it has not returned within `fuel` rounds.
unfoldable pub stream_loop : ℕ → Text → Stream → Tunnel → Option Tunnel
unfolding on_size
stream_loop zero id s t = none
stream_loop (suc fuel) id s t = on_size (λ s' t'. stream_loop fuel id s' t') id t (read_uint64 s)

-- A peer that the table does not have is turned away.
unfoldable pub stream_handler : ℕ → Text → Stream → Tunnel → Option Tunnel
unfolding stream_loop
stream_handler fuel id s t = if is_some (get id t.peers) then stream_loop fuel id s t else some t

-- The bytes that `sendPacket` writes for a batch.
unfoldable pub send_packets : List ℕ → List (List ℕ) → List ℕ
unfolding append_packet_to_buf
send_packets buf [] = buf
send_packets buf (bs ∷ ps) = send_packets (append_packet_to_buf buf bs) ps
