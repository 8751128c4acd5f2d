-- ===== src/Packet/Device.antt =====
-- vpn/vpn.go: `ReadTUNPackets`, the loop that reads packets from the TUN device in batches and hands
-- them to a callback. `none` is a run-time panic. The device and the pool are inputs: what each call
-- of `Read` writes and returns, and the content of the packets that the pool returns.
use gravil.Base.{
  ℕ, ◌+◌, Bool, true, false, ◌||◌, Option, none, some, List, [], ◌∷◌, ◌++◌, length, drop, ltb, eqb,
  if◌then◌else◌, map, replicate,
}
use gravil.Packet.{Packet, clear, parse, max_content_size, room}
use gravil.Packet.Recalculate.{◌>>=◌}

-- One buffer after a read: the bytes written behind the offset, and the size that is reported.
pub record Read : Type 0 where
  pub written : List ℕ
  pub size : ℕ

pub data ReadError : Type 0 where
  no_error too_many_segments closed failed : ReadError

-- One call of `tun.Read`, with the content of the packet that the pool gives for each index.
pub record Round : Type 0 where
  pub spare : ℕ → List ℕ
  pub reads : List Read
  pub error : ReadError

-- `GetTempPacket` for an empty slot, else `clear`.
unfoldable pub fresh : List ℕ → Option Packet → Packet
unfolding clear
fresh content none = record {
  content = content;
  size = 0;
  src = none;
  dst = none;
  is_ipv6 = false;
  ip_protocol = 0;
}
fresh content (some p) = clear p

unfoldable pub refill : (ℕ → List ℕ) → ℕ → List (Option Packet) → List Packet
unfolding fresh
refill spare i [] = []
refill spare i (s ∷ ss) = fresh (spare i) s ∷ refill spare (i + 1) ss

-- What the device does to a buffer.
abbrev pub overwrite : List ℕ → List ℕ → List ℕ
overwrite bs xs = bs ++ drop (length bs) xs

-- A packet that does not parse goes back to the pool and leaves its slot empty.
abbrev pub kept : Packet × Bool → Option Packet
kept (p, true) = some p
kept (p, false) = none

-- A size out of range leaves the packet in its slot, without `Packet`; the slice expression
-- `Buffer[14:size+14]` panics behind the buffer's end.
unfoldable pub take_in : Read → Packet → Option (Option Packet)
unfolding parse
take_in r p =
    let q : Packet = record p { content = overwrite r.written p.content } in
    if eqb r.size 0 || ltb max_content_size r.size
    then some (some q)
    else if ltb room r.size
    then none
    else some (kept (parse (record q { size = r.size })))

-- More packets than buffers would be an index out of range.
unfoldable pub take_all : List Read → List Packet → Option (List (Option Packet))
unfolding take_in
take_all [] ps = some []
take_all (r ∷ rs) [] = none
take_all (r ∷ rs) (p ∷ ps) = take_in r p >>= λ s. take_all rs ps >>= λ ss. some (s ∷ ss)

abbrev pub is_fatal : ReadError → Bool
is_fatal no_error = false
is_fatal too_many_segments = false
is_fatal closed = true
is_fatal failed = true

module _ {ℓ} {T : Type ℓ} (handler : List (Option Packet) → T → List (Option Packet) × T) where
  -- The callback, which may empty slots; it is not called for no packets.
  unfoldable pub hand_over : List (Option Packet) → T → List (Option Packet) × T
  hand_over [] t = ([], t)
  hand_over (s ∷ ss) t = handler (s ∷ ss) t

  -- The list ends where the device has nothing more to read yet.
  unfoldable pub read_loop : List Round → List (Option Packet) → T → Option T
  unfolding hand_over take_all refill
  read_loop [] slots t = some t
  read_loop (r ∷ rs) slots t =
      let packets = refill r.spare 0 slots in
      let next : List (Option Packet) → Option T = λ handed.
        let (left, t') = hand_over handed t in
        let rest = read_loop rs (left ++ map some (drop (length r.reads) packets)) t' in
        if is_fatal r.error then some t' else rest in
      take_all r.reads packets >>= next

  unfoldable pub read_tun_packets : ℕ → List Round → T → Option T
  unfolding read_loop
  read_tun_packets batch_size rs t = read_loop rs (replicate batch_size none) t
