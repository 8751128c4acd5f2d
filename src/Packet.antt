-- ===== src/Packet.antt =====
-- vpn/packet.go: an IP packet in its buffer. `content` is the part of `Buffer` behind the offset
-- that the TUN device keeps for itself (`tunPacketOffset`); `size` is `len(data.Packet)`, so
-- `data.Packet` is the first `size` bytes of `content`. `Src` and `Dst` are slices of the same
-- bytes, kept as a place and a length, so that a write through one is seen by all.
pub mod Checksum
pub mod Recalculate
pub mod Receiver
pub mod Sums
pub mod Around
pub mod Transport
pub mod Laws
pub mod Whole
pub mod Rewrite
pub mod Patch
pub mod Sent
pub mod ReadFrom
pub mod Device
pub mod Verify
pub mod Examples
use gravil.Base.{
  ℕ, ◌+◌, ◌*◌, ◌/◌, ◌%◌, ◌-◌, Bool, true, false, Option, none, some, List, [], ◌∷◌, ◌++◌, length,
  take, drop, get_or, ltb, eqb, if◌then◌else◌, replicate, leb,
}

pub record Slice : Type 0 where
  pub off : ℕ
  pub len : ℕ

pub record Packet : Type 0 where
  pub content : List ℕ
  pub size : ℕ
  pub src : Option Slice
  pub dst : Option Slice
  pub is_ipv6 : Bool
  pub ip_protocol : ℕ

-- `InterfaceMTU`, `maxContentSize` and `tunPacketOffset` of vpn/vpn.go.
abbrev pub interface_mtu : ℕ
interface_mtu = 3500

abbrev pub max_content_size : ℕ
max_content_size = 3600

abbrev pub tun_packet_offset : ℕ
tun_packet_offset = 14

-- What a packet's buffer can hold behind the offset.
abbrev pub room : ℕ
room = 3586

-- The bytes of `data.Packet`.
abbrev pub bytes : Packet → List ℕ
bytes p = take p.size p.content

pub clear : Packet → Packet
clear p = record p { size = 0; src = none; dst = none; is_ipv6 = false; ip_protocol = 0 }

abbrev slice : ℕ → ℕ → Option Slice
slice off len = some (record { off = off; len = len })

-- The offsets and header lengths are those of RFC 791 and RFC 8200, which the imported constants
-- (`ipv4.HeaderLen`, `device.IPv4offsetSrc`, …) name.
unfoldable pub parse : Packet → Packet × Bool
parse p =
    if eqb p.size 0
    then (p, false)
    else let version = get_or p.content 0 0 / 16 in
      if eqb version 4
      then (if ltb p.size 20 then (p, false) else (
        record p {
          src = slice 12 4;
          dst = slice 16 4;
          is_ipv6 = false;
          ip_protocol = get_or p.content 9 0;
        },
        true,
      ))
      else if eqb version 6
      then (if ltb p.size 40
          then (p, false)
          else (record p { src = slice 8 16; dst = slice 24 16; is_ipv6 = true }, true))
      else (p, false)

-- `copy` of at most `len` bytes through a slice.
unfoldable pub write_at : ℕ → List ℕ → List ℕ → List ℕ
write_at off bs xs = take off xs ++ (take (length xs - off) bs ++ drop (off + length bs) xs)
