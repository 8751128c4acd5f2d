-- ===== src/Tunnel/Delivery.antt =====
-- service/tunnel.go: what a batch that `sendPacket` wrote becomes at the other end.
use gravil.Base.{
  ℕ, zero, suc, ◌+◌, ◌%◌, ◌≤◌, ◌<◌, ◌≡◌, ◌≢◌, refl, sym, ap, ◌∙◌, List, [], ◌∷◌, ◌++◌, arith,
  length, take, drop, append_assoc, length-append, append-nil, take-append_length,
  drop-append_length, Text, text_eq_iff, text_key, get, put, get-put, Option, none, some,
}
use gravil.Protocol.{
  Uint64Read, error, read_uint64, decode_uint64, append_packet_to_buf, put_uint64,
}
use gravil.Protocol.Reader.{
  Stream, Ending, at_end, reset, flat, eof, failed, read_full, read_full_from,
}
use gravil.Protocol.Frame.{frame, append_packet_to_buf-frame, read_uint64-put_uint64}
use gravil.Packet.{room}
use gravil.Packet.ReadFrom.{received, read_from, read_from-flat}
use gravil.Tunnel.{VpnPeer, Tunnel, packet_handlers_chan_cap}
use gravil.Tunnel.Receive.{
  limit_of, read_packet, accept, accept_for, receive_packet, on_accepted, on_packet, on_size,
  stream_loop, stream_handler, send_packets,
}

abbrev frames : List (List ℕ) → List ℕ
frames [] = []
frames (bs ∷ ps) = frame bs ++ frames ps

send_packets-frames : (buf : List ℕ) (ps : List (List ℕ)) → send_packets buf ps ≡ buf ++ frames ps
unfolding send_packets
send_packets-frames buf [] = sym (append-nil buf)
send_packets-frames buf (bs ∷ ps) =
    send_packets-frames (append_packet_to_buf buf bs) ps
    ∙ ap (λ k. k ++ frames ps) (append_packet_to_buf-frame buf bs)
    ∙ append_assoc buf (frame bs) (frames ps)

abbrev with_peer : Text → VpnPeer → Tunnel → Tunnel
with_peer id p t = record t { peers = put id p t.peers }

-- A frame at the front of the stream is read, and its packet given to the peer.
stream_loop_step :
    (fuel : ℕ) (id : Text) (bs behind : List ℕ) (s : Stream) (t : Tunnel) (p : VpnPeer)
    → length bs ≤ room
    → flat s.chunks ≡ frame bs ++ behind
    → get id t.peers ≡ some p
    → (rest : Stream) × (stream_loop (suc fuel) id s t
        ≡ stream_loop fuel id rest (with_peer id (accept bs p) t))
      × (flat rest.chunks ≡ behind)
unfolding read_packet read_from on_packet on_accepted receive_packet accept_for on_size stream_loop
    read_uint64
stream_loop_step fuel id bs behind s t p small e there =
    let size = length bs % 18446744073709551616 in
    let exact : size ≡ length bs = omega arith in
    let h =
      read_uint64-put_uint64 size (bs ++ behind) s (omega arith)
        (e ∙ append_assoc (put_uint64 size) bs behind) in
    let limit : limit_of size ≡ length bs = ground arith in
    let b =
      read_from-flat (length h.0 + 2) (length bs) [] h.0 s.ending (omega arith)
        (omega (arith, ap length h.2, length-append bs behind)) (omega arith) in
    let front : take (length bs) (flat h.0) ≡ bs =
      ap (take (length bs)) h.2 ∙ take-append_length bs behind in
    let packet : read_packet size (record { chunks = h.0; ending = s.ending }) ≡ received bs b.0 =
      ap (λ n. read_from (length h.0 + 2) n [] h.0 s.ending) limit
      ∙ b.1
      ∙ ap (λ k. received k b.0) front in
    (
      record { chunks = b.0; ending = s.ending },
      ap (on_size (λ s' t'. stream_loop fuel id s' t') id t) h.1
          ∙ ap (on_packet (λ s' t'. stream_loop fuel id s' t') id s.ending t) packet
          ∙ ap
              (λ o.
                on_accepted (stream_loop fuel id (record { chunks = b.0; ending = s.ending })) t
                  (accept_for id bs o t))
              there,
      b.2 ∙ ap (drop (length bs)) h.2 ∙ drop-append_length bs behind,
    )

-- At the end of a stream no size is read.
read_full_from-end :
    (cs : List (List ℕ)) (e : Ending)
    → flat cs ≡ []
    → (f : Uint64Read) × (decode_uint64 (read_full_from 8 [] cs e) ≡ f)
      × ((again : Stream → Tunnel → Option Tunnel) (id : Text) (t : Tunnel)
          → on_size again id t f ≡ some t)
unfolding read_full_from decode_uint64 on_size
read_full_from-end [] at_end h = (error eof, refl, λ again id t. refl)
read_full_from-end [] reset h = (error failed, refl, λ again id t. refl)
read_full_from-end ([] ∷ cs) e h = read_full_from-end cs e h
read_full_from-end ((b ∷ c) ∷ cs) e h = cc

stream_loop-end :
    (fuel : ℕ) (id : Text) (s : Stream) (t : Tunnel)
    → flat s.chunks ≡ []
    → stream_loop (suc fuel) id s t ≡ some t
unfolding stream_loop read_uint64 read_full
stream_loop-end fuel id s t h =
    let r = read_full_from-end s.chunks s.ending h in
    ap (on_size (λ s' t'. stream_loop fuel id s' t') id t) r.1
    ∙ r.2 (λ s' t'. stream_loop fuel id s' t') id t

abbrev pub AllFit : List (List ℕ) → Type 0
AllFit [] = Unit {0}
AllFit (bs ∷ ps) = (length bs ≤ room) × AllFit ps

accept_room :
    (bs : List ℕ) (p : VpnPeer)
    → length p.inbound < packet_handlers_chan_cap
    → accept bs p ≡ record p { inbound = p.inbound ++ bs ∷ [] }
unfolding accept
accept_room bs p h = ground arith

-- The tunnel after the packets were queued for one peer.
abbrev pub Delivered : Text → List (List ℕ) → VpnPeer → Tunnel → Option Tunnel → Type 0
Delivered id ps p t r =
    (u : Tunnel) × (r ≡ some u)
    × (get id u.peers ≡ some (record p { inbound = p.inbound ++ ps }))
    × ((j : Text) → id ≢ j → get j u.peers ≡ get j t.peers)

stream_loop-delivers :
    (ps : List (List ℕ)) (fuel : ℕ) (id : Text) (s : Stream) (t : Tunnel) (p : VpnPeer)
    → AllFit ps
    → flat s.chunks ≡ frames ps
    → get id t.peers ≡ some p
    → length p.inbound + length ps ≤ packet_handlers_chan_cap
    → length ps < fuel
    → Delivered id ps p t (stream_loop fuel id s t)
stream_loop-delivers ps zero id s t p fit e there room_left enough = absurd (omega (arith, enough))
stream_loop-delivers [] (suc fuel) id s t p fit e there room_left enough = (
  t,
  stream_loop-end fuel id s t e,
  there ∙ ap (λ k. some (record p { inbound = k })) (sym (append-nil p.inbound)),
  λ j ne. refl,
)
stream_loop-delivers (bs ∷ ps) (suc fuel) id s t p fit e there room_left enough =
    let one = stream_loop_step fuel id bs (frames ps) s t p fit.0 e there in
    let p' : VpnPeer = record p { inbound = p.inbound ++ bs ∷ [] } in
    let next : stream_loop (suc fuel) id s t ≡ stream_loop fuel id one.0 (with_peer id p' t) =
      one.1
      ∙ ap (λ q. stream_loop fuel id one.0 (with_peer id q t)) (accept_room bs p (omega arith)) in
    let later =
      stream_loop-delivers ps fuel id one.0 (with_peer id p' t) p' fit.1 one.2
        (ground (arith, get-put id id p' t.peers, text_eq_iff id id))
        (omega (arith, length-append p.inbound (bs ∷ []))) (omega arith) in
    (
      later.0,
      next ∙ later.1,
      later.2 ∙ ap (λ k. some (record p { inbound = k })) (append_assoc p.inbound (bs ∷ []) ps),
      λ j ne. later.3 j ne ∙ ground (arith, get-put id j p' t.peers, text_eq_iff id j),
    )

-- The bytes of one batch, however the network cuts them, become exactly the packets of the batch, in
-- order, behind those that the receiver's inbound queue for the sender held, and no other peer is
-- touched. The handler returns, within one round more than there are packets, whether the stream ends
-- or breaks behind them. The sender is in the table, each packet fits a buffer and the queue has room.
pub stream_handler-send_packets :
    (ps : List (List ℕ)) (fuel : ℕ) (id : Text) (s : Stream) (t : Tunnel) (p : VpnPeer)
    → AllFit ps
    → flat s.chunks ≡ send_packets [] ps
    → get id t.peers ≡ some p
    → length p.inbound + length ps ≤ packet_handlers_chan_cap
    → length ps < fuel
    → Delivered id ps p t (stream_handler fuel id s t)
unfolding stream_handler
stream_handler-send_packets ps fuel id s t p fit e there room_left enough =
    let d =
      stream_loop-delivers ps fuel id s t p fit (e ∙ send_packets-frames [] ps) there room_left
        enough in
    let known : stream_handler fuel id s t ≡ stream_loop fuel id s t = ground (arith, there) in
    (d.0, known ∙ d.1, d.2, d.3)

-- What a peer that the table does not have sends is not even read.
pub stream_handler_unknown :
    (fuel : ℕ) (id : Text) (s : Stream) (t : Tunnel)
    → get id t.peers ≡ none
    → stream_handler fuel id s t ≡ some t
unfolding stream_handler
stream_handler_unknown fuel id s t gone = ground (arith, gone)
