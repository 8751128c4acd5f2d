-- ===== src/Packet/Rewrite.antt =====
-- vpn/vpn.go: `WritePacket` and the loop of `WritePacketsBatch`, which give a received packet its
-- addresses in this device's network and new checksums. The TUN device takes what they return.
use gravil.Base.{ℕ, Option, none, some, List, [], ◌∷◌, take, if◌then◌else◌}
use gravil.Packet.{Packet, Slice, write_at}
use gravil.Packet.Recalculate.{recalculate_checksum, ◌>>=◌}

-- `copy(packet.Src, ip)`: nothing for a nil address, and at most as many bytes as both have.
unfoldable pub copy_ip : Option Slice → List ℕ → List ℕ → List ℕ
unfolding write_at
copy_ip none ip xs = xs
copy_ip (some s) ip xs = write_at s.off (take s.len ip) xs

unfoldable pub readdress : List ℕ → List ℕ → Packet → Packet
unfolding copy_ip
readdress sender local p = record p {
  content = copy_ip p.dst local (copy_ip p.src sender p.content);
}

-- The bytes for the device: none at all for an IPv6 packet.
unfoldable pub prepare : List ℕ → List ℕ → Packet → Option (Option Packet)
unfolding readdress
prepare sender local p =
    if p.is_ipv6
    then some none
    else recalculate_checksum (readdress sender local p) >>= λ q. some (some q)

-- The packets that are handed to the device, in order; `none` is a run-time panic.
unfoldable pub with_first : Option Packet → List Packet → List Packet
with_first none qs = qs
with_first (some q) qs = q ∷ qs

unfoldable pub prepare_batch : List ℕ → List ℕ → List Packet → Option (List Packet)
unfolding prepare with_first
prepare_batch sender local [] = some []
prepare_batch sender local (p ∷ ps) = prepare sender local p >>= λ first.
    prepare_batch sender local ps >>= λ rest. some (with_first first rest)
