-- ===== src/Packet/Sent.antt =====
-- vpn/vpn.go: the packets that `WritePacket` and `WritePacketsBatch` hand to the TUN device.
use gravil.Base.{
  ℕ, ◌+◌, ◌-◌, ◌*◌, ◌%◌, ◌≤◌, ◌<◌, ◌≡◌, sym, ap, ◌∙◌, subst, none, some, List, ◌++◌, arith, length,
  take, drop, get_or, length-take, length-drop, take-all, if◌then◌else◌,
}
use gravil.Packet.{Packet, write_at}
use gravil.Packet.Checksum.{checksum_ipv4_header, checksum_ipv4_tcp_udp}
use gravil.Packet.Recalculate.{header_len, recalculate_checksum, ◌>>=◌}
use gravil.Packet.Sums.{IsBytes}
use gravil.Packet.Around.{around, length-around, take-IsBytes, drop-IsBytes}
use gravil.Packet.Receiver.{HasChecksum, pseudo_header, header-HasChecksum, segment-HasChecksum}
use gravil.Packet.Verify.{with_header}
use gravil.Packet.Transport.{read}
use gravil.Packet.Laws.{IsReady, protocol, field, IsTransport}
use gravil.Packet.Whole.{source, dest, recalculate_checksum-rewrites}
use gravil.Packet.Patch.{
  window, patched, write_at-patched, length-patched, patched-IsBytes, read-patched, read-before,
  get_or-patched, read-around,
}
use gravil.Packet.Rewrite.{copy_ip, readdress, prepare}

module _ (p : Packet) (sender local : List ℕ) (ready : IsReady p) (four_sender : length sender ≡ 4)
    (four_local : length local ≡ 4) where
  long : 20 ≤ length p.content
  long = omega (arith, ready.header, ready.inside, ready.held)

  -- The bytes with both addresses.
  abbrev with_source : List ℕ
  with_source = patched 12 sender p.content (omega (arith, long, four_sender))

  long_source : 16 + length local ≤ length with_source
  long_source = omega (
    arith,
    long,
    four_local,
    length-patched 12 sender p.content (omega (arith, long, four_sender)),
  )

  abbrev with_both : List ℕ
  with_both = patched 16 local with_source long_source

  readdressed : readdress sender local p ≡ record p { content = with_both }
  unfolding readdress copy_ip
  readdressed =
      ap (λ ys. record p { content = ys })
        (ap (λ o. copy_ip p.dst local (copy_ip o sender p.content)) ready.src
          ∙ ap (λ bs. copy_ip p.dst local (write_at 12 bs p.content))
              (take-all 4 sender (omega arith))
          ∙ ap (copy_ip p.dst local)
              (write_at-patched 12 sender p.content (omega (arith, long, four_sender)))
          ∙ ap (λ o. copy_ip o local with_source) ready.dst
          ∙ ap (λ bs. write_at 16 bs with_source) (take-all 4 local (omega arith))
          ∙ write_at-patched 16 local with_source long_source)

  get_or-both : (i : ℕ) → i < 12 → get_or with_both i 0 ≡ get_or p.content i 0
  get_or-both i h =
      get_or-patched 16 local with_source long_source i (omega arith)
      ∙ get_or-patched 12 sender p.content (omega (arith, long, four_sender)) i h

  header_len-both : header_len with_both ≡ header_len p.content
  unfolding header_len
  header_len-both = ap (λ b. b % 16 * 4) (get_or-both 0 (omega arith))

  length-both : length with_both ≡ length p.content
  length-both =
      length-patched 16 local with_source long_source
      ∙ length-patched 12 sender p.content (omega (arith, long, four_sender))

  abbrev both : Packet
  both = record p { content = with_both }

  both-IsReady : IsBytes sender → IsBytes local → IsReady both
  both-IsReady bs bl = record {
    v4 = ready.v4;
    src = ready.src;
    dst = ready.dst;
    header = omega (arith, header_len-both, ready.header);
    inside = omega (arith, header_len-both, ready.inside);
    held = omega (arith, length-both, ready.held);
    small = omega (arith, length-both, ready.small);
    are_bytes =
        patched-IsBytes 16 local with_source long_source bl (
          patched-IsBytes 12 sender p.content (omega (arith, long, four_sender)) bs
            ready.are_bytes);
  }

  -- The addresses stay in the header when the checksum is written.
  read-with_header :
      (o : ℕ) → 12 ≤ o → take 4 (drop o (with_header both)) ≡ take 4 (drop o with_both)
  read-with_header o h =
      read-around 10 _ _ o 4 (around 10 with_both 0 0) (omega arith) (
        omega (
          arith,
          long,
          length-both,
          length-around 10 0 0 with_both (omega (arith, long, length-both)),
        ))
      ∙ read-around 10 0 0 o 4 with_both (omega arith) (omega (arith, long, length-both))

  read-source : take 4 (drop 12 with_both) ≡ sender
  read-source =
      read-before 16 local with_source long_source 12 4 (omega arith)
      ∙ ap (λ n. take n (drop 12 with_source)) (sym four_sender)
      ∙ read-patched 12 sender p.content (omega (arith, long, four_sender))

  read-dest : take 4 (drop 16 with_both) ≡ local
  read-dest =
      ap (λ n. take n (drop 16 with_both)) (sym four_local)
      ∙ read-patched 16 local with_source long_source

  kept_read :
      (o : ℕ) (ys : List ℕ)
      → 12 ≤ o
      → o + 4 ≤ header_len with_both
      → take (header_len with_both) ys ≡ take (header_len with_both) (with_header both)
      → take 4 (drop o ys) ≡ take 4 (drop o with_both)
  kept_read o ys low high e =
      sym (window o 4 (header_len with_both) ys high)
      ∙ ap (λ zs. take 4 (drop o zs)) e
      ∙ window o 4 (header_len with_both) (with_header both) high
      ∙ read-with_header o low

  -- The code's own checks of the result.
  prepared :
      IsBytes sender
      → IsBytes local
      → IsTransport (protocol p)
      → header_len p.content + field (protocol p) + 2 ≤ p.size
      → (ys : List ℕ) × (prepare sender local p ≡ some (some (record p { content = ys })))
        × (read source ys ≡ sender)
        × (read dest ys ≡ local)
        × (checksum_ipv4_header (take (header_len p.content) ys) ≡ 0)
        × (checksum_ipv4_tcp_udp
              (drop (header_len p.content) (take p.size ys))
              (protocol p)
              sender
              local
            ≡ 0)
        × IsBytes ys
        × (length ys ≡ length p.content)
  unfolding prepare
  prepared bs bl transport inside =
      let same : protocol both ≡ protocol p = get_or-both 9 (omega arith) in
      let w =
        recalculate_checksum-rewrites both (both-IsReady bs bl)
          (subst IsTransport (sym same) transport)
          (omega (arith, header_len-both, inside, ap field same)) in
      let src : read source w.0 ≡ sender =
        kept_read 12 w.0 (omega arith) (omega (arith, header_len-both, ready.header)) w.4
        ∙ read-source in
      let dst : read dest w.0 ≡ local =
        kept_read 16 w.0 (omega arith) (omega (arith, header_len-both, ready.header)) w.4
        ∙ read-dest in
      (
        w.0,
        ap
              (λ b.
                if b
                then some none
                else recalculate_checksum (readdress sender local p) >>= λ q. some (some q))
              ready.v4
            ∙ ap (λ q. recalculate_checksum q >>= λ r. some (some r)) readdressed
            ∙ ap (λ o. o >>= λ r. some (some r)) w.1,
        src,
        dst,
        ap (λ n. checksum_ipv4_header (take n w.0)) (sym header_len-both) ∙ w.2,
        ap (λ n. checksum_ipv4_tcp_udp (drop n (take p.size w.0)) (protocol p) sender local)
              (sym header_len-both)
            ∙ ap
                (λ k.
                  checksum_ipv4_tcp_udp (drop (header_len with_both) (take p.size w.0)) k sender
                    local)
                (sym same)
            ∙ ap
                (λ a.
                  checksum_ipv4_tcp_udp (drop (header_len with_both) (take p.size w.0))
                    (protocol both) a local)
                (sym src)
            ∙ ap
                (λ a.
                  checksum_ipv4_tcp_udp (drop (header_len with_both) (take p.size w.0))
                    (protocol both) (read source w.0) a)
                (sym dst)
            ∙ w.3,
        w.5,
        w.6 ∙ length-both,
      )

  -- The segment behind the header.
  abbrev pub segment_of : List ℕ → List ℕ
  segment_of ys = drop (header_len p.content) (take p.size ys)

  -- A TCP or UDP packet of IPv4 as `Parse` leaves it, with a whole header and its checksum field inside,
  -- is handed to the device with the sender's address as source and the local one as destination, and
  -- as a receiver checks it after RFC 1071: the words of the header, and those of the segment with the
  -- pseudo header of these addresses, the protocol and the segment's length, sum to all ones.
  pub prepare-verifies :
      IsBytes sender
      → IsBytes local
      → IsTransport (protocol p)
      → header_len p.content + field (protocol p) + 2 ≤ p.size
      → (ys : List ℕ) × (prepare sender local p ≡ some (some (record p { content = ys })))
        × (read source ys ≡ sender)
        × (read dest ys ≡ local)
        × HasChecksum (take (header_len p.content) ys)
        × HasChecksum (
            pseudo_header sender local (protocol p) (p.size - header_len p.content)
            ++ segment_of ys)
  prepare-verifies bs bl transport inside =
      let w = prepared bs bl transport inside in
      let ys = w.0 in
      let size : length (segment_of ys) ≡ p.size - header_len p.content = omega (
        arith,
        length-drop (header_len p.content) (take p.size ys),
        length-take p.size ys,
        w.7,
        ready.held,
      ) in
      let bytes : IsBytes (segment_of ys) =
        drop-IsBytes (header_len p.content) (take p.size ys) (take-IsBytes p.size ys w.6) in
      let small : length (segment_of ys) ≤ 3586 = omega (arith, size, ready.held, ready.small) in
      let header_small : length (take (header_len p.content) ys) ≤ 3586 =
        omega (arith, length-take (header_len p.content) ys, w.7, ready.small) in
      (
        ys,
        w.1,
        w.2,
        w.3,
        header-HasChecksum (take (header_len p.content) ys)
            (take-IsBytes (header_len p.content) ys w.6) header_small w.4,
        subst (λ n. HasChecksum (pseudo_header sender local (protocol p) n ++ segment_of ys)) size
            (segment-HasChecksum (protocol p) (segment_of ys) sender local four_sender four_local bs
              bl (omega (arith, transport)) bytes small w.5),
      )
