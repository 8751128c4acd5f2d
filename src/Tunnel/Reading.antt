-- ===== src/Tunnel/Reading.antt =====
-- vpn/vpn.go and service/tunnel.go together: the packets that the TUN device reads go through
-- `ReadTUNPackets` to `HandleReadPackets`, which empties the slots of those that it queued.
pub mod Batch
pub mod Run
pub mod Examples
use gravil.Base.{
  ℕ, suc, ◌+◌, ◌-◌, ◌*◌, ◌/◌, ◌≤◌, ◌<◌, ◌≡◌, refl, sym, ap, ap₂, ◌∙◌, subst, Bool, true, false, not,
  ◌&&◌, Option, none, some, List, [], ◌∷◌, ◌++◌, append_assoc, append-nil, arith, Text, get,
  text_key, ltb, leb, eqb, length, take, drop, get_or, map, replicate, if◌then◌else◌, Bool-cases,
  inl, inr, take-append_length, length-append,
}
use gravil.Addr.{Ip, v4, v6}
use gravil.Packet.{Packet, Slice, bytes, parse, clear, room, max_content_size}
use gravil.Packet.Recalculate.{◌>>=◌}
use gravil.Packet.Device.{
  Read, Round, is_fatal, fresh, refill, overwrite, kept, take_in, take_all, hand_over, read_loop,
  read_tun_packets,
}
use gravil.Tunnel.{
  VpnPeer, Tunnel, Outgoing, packet_handlers_chan_cap, route, is_broadcast, handle_packet,
  handle_all, handle_read_packets,
}

-- An address, from its bytes.
unfoldable pub address_value : ℕ → List ℕ → ℕ
address_value acc [] = acc
address_value acc (b ∷ bs) = address_value (acc * 256 + b) bs

abbrev pub address : Slice → List ℕ → Ip
address s xs =
    let a = address_value 0 (take s.len (drop s.off xs)) in if eqb s.len 4 then v4 a else v6 a

-- The packet as `HandleReadPackets` reads it; a nil `Dst` equals no address and is in no table.
abbrev pub as_outgoing : Packet → Option Slice → Option Outgoing
as_outgoing p none = none
as_outgoing p (some s) = some (record { dst = address s p.content; payload = bytes p })

abbrev pub of_slot : Option Packet → Option Outgoing
of_slot none = none
of_slot (some p) = as_outgoing p p.dst

abbrev pub has_room : Option VpnPeer → Bool
has_room none = false
has_room (some q) = ltb (length q.outbound) packet_handlers_chan_cap

abbrev pub leads_to_room : Option Text → Tunnel → Bool
leads_to_room none t = false
leads_to_room (some id) t = has_room (get id t.peers)

-- Whether the packet itself, not a copy, goes into a queue.
abbrev pub is_queued : ℕ → Option Outgoing → Tunnel → Bool
is_queued net none t = false
is_queued net (some o) t = not (is_broadcast net o.dst) && leads_to_room (route o.dst t) t

unfoldable pub handle_one : (Text → Bool) → ℕ → Option Outgoing → Tunnel → Tunnel
handle_one connected net none t = t
handle_one connected net (some o) t = handle_packet connected net o t

-- The loop of `HandleReadPackets`, with `packets[i] = nil`.
unfoldable pub handle_slots :
    (Text → Bool) → ℕ → List (Option Packet) → Tunnel → List (Option Packet) × Tunnel
unfolding handle_one
handle_slots connected net [] t = ([], t)
handle_slots connected net (s ∷ ss) t =
    let (left, t') = handle_slots connected net ss (handle_one connected net (of_slot s) t) in
    ((if is_queued net (of_slot s) t then none else s) ∷ left, t')

unfoldable pub packets_handler :
    (Text → Bool) → ℕ → List (Option Packet) → Tunnel → List (Option Packet) × Tunnel
unfolding handle_slots
packets_handler connected net ss t =
    if t.is_closed then (ss, t) else handle_slots connected net ss t

-- What the bytes of a packet say: its destination, after RFC 791 and RFC 8200.
abbrev pub packet_of : List ℕ → Option Outgoing
packet_of bs =
    let version = get_or bs 0 0 / 16 in
    if eqb version 4 && leb 20 (length bs)
    then some (record { dst = v4 (address_value 0 (take 4 (drop 16 bs))); payload = bs })
    else if eqb version 6 && leb 40 (length bs)
    then some (record { dst = v6 (address_value 0 (take 16 (drop 24 bs))); payload = bs })
    else none

abbrev pub listed : Option Outgoing → List Outgoing → List Outgoing
listed none os = os
listed (some o) os = o ∷ os

abbrev pub packets_of : List Read → List Outgoing
packets_of [] = []
packets_of (r ∷ rs) = listed (packet_of r.written) (packets_of rs)

-- All packets up to the first error that ends the loop.
abbrev pub sent : List Round → List Outgoing
sent [] = []
sent (r ∷ rs) = packets_of r.reads ++ (if is_fatal r.error then [] else sent rs)

-- What is asked of the device: it reports what it wrote, which fits the buffer.
abbrev pub AreSound : List Read → Type 0
AreSound [] = Unit
AreSound (r ∷ rs) = (r.size ≡ length r.written) × (r.size ≤ room) × AreSound rs

-- And a batch has no more packets than buffers.
abbrev pub AreRounds : ℕ → List Round → Type 0
AreRounds n [] = Unit
AreRounds n (r ∷ rs) = AreSound r.reads × (length r.reads ≤ n) × AreRounds n rs
