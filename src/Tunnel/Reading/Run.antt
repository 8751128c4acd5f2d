-- ===== src/Tunnel/Reading/Run.antt =====
-- vpn/vpn.go and service/tunnel.go: the run of `ReadTUNPackets` with `HandleReadPackets` behind it.
use gravil.Base.{
  ℕ, zero, suc, ◌+◌, ◌≤◌, ◌<◌, ◌≡◌, refl, sym, ap, ◌∙◌, Bool, true, false, Option, none, some, List,
  [], ◌∷◌, ◌++◌, append-nil, arith, Text, Dict, get, text_key, length, drop, map, replicate, eqb,
  ltb, if◌then◌else◌, Bool-cases, inl, inr, length-append, length-drop, length-replicate,
}
use gravil.Packet.{Packet, room, max_content_size}
use gravil.Packet.Recalculate.{◌>>=◌}
use gravil.Packet.Device.{
  Read, ReadError, Round, is_fatal, refill, take_in, take_all, hand_over, read_loop,
  read_tun_packets,
}
use gravil.Tunnel.{
  VpnPeer, Tunnel, Outgoing, offer_to, broadcast, unicast, route, is_broadcast, handle_packet,
  handle_all, handle_read_packets,
}
use gravil.Tunnel.Reading.{
  of_slot, listed, packets_of, sent, AreRounds, handle_one, handle_slots, packets_handler,
}
use gravil.Tunnel.Reading.Batch.{outs, take_all-outs}

module _ (connected : Text → Bool) (net : ℕ) where
  handle_slots-outs :
      (ss : List (Option Packet)) (t : Tunnel)
      → (handle_slots connected net ss t).1 ≡ handle_all connected net (outs ss) t
  unfolding handle_slots handle_all
  handle_slots-outs [] t = refl
  handle_slots-outs (s ∷ ss) t =
      handle_slots-outs ss (handle_one connected net (of_slot s) t) ∙ one (of_slot s)
    where
      one :
          (o : Option Outgoing)
          → handle_all connected net (outs ss) (handle_one connected net o t)
            ≡ handle_all connected net (listed o (outs ss)) t
      one none = refl
      one (some o) = refl

  handle_slots-length :
      (ss : List (Option Packet)) (t : Tunnel)
      → length (handle_slots connected net ss t).0 ≡ length ss
  unfolding handle_slots
  handle_slots-length [] t = refl
  handle_slots-length (s ∷ ss) t =
      ap suc (handle_slots-length ss (handle_one connected net (of_slot s) t))

  -- The callback on a batch, and the length of the slots that it leaves.
  batch : List (Option Packet) → Tunnel → List (Option Packet) × Tunnel
  batch = hand_over (packets_handler connected net)

  batch-outs :
      (ss : List (Option Packet)) (t : Tunnel)
      → (batch ss t).1 ≡ handle_read_packets connected net (outs ss) t
  unfolding batch hand_over packets_handler handle_read_packets handle_all
  batch-outs [] t = elim (Bool-cases t.is_closed) [ inl c ↦ rw c refl | inr c ↦ rw c refl ]
  batch-outs (s ∷ ss) t = elim (Bool-cases t.is_closed) [
    | inl closed ↦ simp closed
    | inr still_open ↦ simp still_open (handle_slots-outs (s ∷ ss) t)
  ]

  batch-length : (ss : List (Option Packet)) (t : Tunnel) → length (batch ss t).0 ≡ length ss
  unfolding batch hand_over packets_handler
  batch-length [] t = refl
  batch-length (s ∷ ss) t = elim (Bool-cases t.is_closed) [
    | inl closed ↦ simp closed
    | inr still_open ↦ simp still_open (handle_slots-length (s ∷ ss) t)
  ]

-- Packets do not open or close the tunnel.
offer_to-is_closed :
    (id : Text) (x : List ℕ) (o : Option VpnPeer) (t : Tunnel)
    → (offer_to id x o t).is_closed ≡ t.is_closed
unfolding offer_to
offer_to-is_closed id x none t = refl
offer_to-is_closed id x (some q) t = refl

broadcast-is_closed :
    (connected : Text → Bool) (x : List ℕ) (ips : Dict ℕ Text) (t : Tunnel)
    → (broadcast connected x ips t).is_closed ≡ t.is_closed
unfolding broadcast
broadcast-is_closed connected x [] t = refl
broadcast-is_closed connected x ((_, id) ∷ ips) t =
    let rest = broadcast-is_closed connected x ips in
    elim (Bool-cases (connected id)) [
      | inl on ↦ simp on (rest _ ∙ offer_to-is_closed id x (get id t.peers) t)
      | inr off ↦ simp off (rest t)
    ]

unicast-is_closed :
    (x : List ℕ) (o : Option Text) (t : Tunnel) → (unicast x o t).is_closed ≡ t.is_closed
unfolding unicast
unicast-is_closed x none t = refl
unicast-is_closed x (some id) t = offer_to-is_closed id x (get id t.peers) t

module _ (connected : Text → Bool) (net : ℕ) where
  handle_packet-is_closed :
      (p : Outgoing) (t : Tunnel) → (handle_packet connected net p t).is_closed ≡ t.is_closed
  unfolding handle_packet
  handle_packet-is_closed p t = elim (Bool-cases (is_broadcast net p.dst)) [
    | inl all ↦ rw all (broadcast-is_closed connected p.payload t.by_ip t)
    | inr one ↦ rw one (unicast-is_closed p.payload (route p.dst t) t)
  ]

  handle_all-is_closed :
      (ps : List Outgoing) (t : Tunnel) → (handle_all connected net ps t).is_closed ≡ t.is_closed
  unfolding handle_all
  handle_all-is_closed [] t = refl
  handle_all-is_closed (p ∷ ps) t =
      handle_all-is_closed ps (handle_packet connected net p t) ∙ handle_packet-is_closed p t

  handle_all-append :
      (ps qs : List Outgoing) (t : Tunnel)
      → handle_all connected net (ps ++ qs) t
        ≡ handle_all connected net qs (handle_all connected net ps t)
  unfolding handle_all
  handle_all-append [] qs t = refl
  handle_all-append (p ∷ ps) qs t = handle_all-append ps qs (handle_packet connected net p t)

  handle_read_packets-append :
      (ps qs : List Outgoing) (t : Tunnel)
      → handle_read_packets connected net (ps ++ qs) t
        ≡ handle_read_packets connected net qs (handle_read_packets connected net ps t)
  unfolding handle_read_packets
  handle_read_packets-append ps qs t = elim (Bool-cases t.is_closed) [
    | inl closed ↦ simp closed
    | inr still_open ↦ simp (still_open, handle_all-is_closed ps t) (handle_all-append ps qs t)
  ]

-- What is left for the next round has as many slots as before.
length-map {ℓ κ} :
    {A : Type ℓ} {B : Type κ} (f : A → B) (xs : List A) → length (map f xs) ≡ length xs
length-map f [] = refl
length-map f (x ∷ xs) = ap suc (length-map f xs)

length-refill :
    (spare : ℕ → List ℕ) (i : ℕ) (ss : List (Option Packet))
    → length (refill spare i ss) ≡ length ss
unfolding refill
length-refill spare i [] = refl
length-refill spare i (s ∷ ss) = ap suc (length-refill spare (i + 1) ss)

length-next :
    (left : List (Option Packet)) (ps : List Packet) (k n : ℕ)
    → length left ≡ k
    → k ≤ n
    → length ps ≡ n
    → length (left ++ map some (drop k ps)) ≡ n
length-next left ps k n l h p = omega (
  arith,
  length-append left (map some (drop k ps)),
  length-map (λ (p : Packet). some p) (drop k ps),
  length-drop k ps,
)

module _ (connected : Text → Bool) (net : ℕ) (n : ℕ) where
  read_loop-sent :
      (rs : List Round) (slots : List (Option Packet)) (t : Tunnel)
      → AreRounds n rs
      → length slots ≡ n
      → read_loop (packets_handler connected net) rs slots t
        ≡ some (handle_read_packets connected net (sent rs) t)
  unfolding read_loop batch handle_read_packets handle_all
  read_loop-sent [] slots t sound l =
      ap some (elim (Bool-cases t.is_closed) [ inl c ↦ simp c | inr c ↦ simp c ])
  read_loop-sent (r ∷ rs) slots t sound l =
      let got = take_all-outs r.spare 0 r.reads slots sound.0 (omega (arith, sound.1)) in
      let packets = refill r.spare 0 slots in
      let after = batch connected net got.0 t in
      let next = after.0 ++ map some (drop (length r.reads) packets) in
      let result : Bool → Option Tunnel = λ b.
        if b then some after.1 else read_loop (packets_handler connected net) rs next after.1 in
      let all : Bool → List Outgoing = λ b. packets_of r.reads ++ (if b then [] else sent rs) in
      let handled : after.1 ≡ handle_read_packets connected net (packets_of r.reads) t =
        batch-outs connected net got.0 t
        ∙ ap (λ os. handle_read_packets connected net os t) got.2 in
      ap
        (λ o. o >>= λ handed.
          if is_fatal r.error
          then some (batch connected net handed t).1
          else read_loop (packets_handler connected net) rs
              ((batch connected net handed t).0 ++ map some (drop (length r.reads) packets))
              (batch connected net handed t).1)
        got.1
      ∙ elim (Bool-cases (is_fatal r.error)) [
        | inl fatal ↦
            ap result fatal
            ∙ ap some (
                handled
                ∙ ap (λ os. handle_read_packets connected net os t)
                    (sym (append-nil (packets_of r.reads))))
            ∙ sym (ap (λ b. some (handle_read_packets connected net (all b) t)) fatal)
        | inr going ↦
            ap result going
            ∙ read_loop-sent rs next after.1 sound.2 (
                length-next after.0 packets (length r.reads) n
                  (batch-length connected net got.0 t ∙ got.3) sound.1
                  (length-refill r.spare 0 slots ∙ l))
            ∙ ap some (
                ap (handle_read_packets connected net (sent rs)) handled
                ∙ sym (handle_read_packets-append connected net (packets_of r.reads) (sent rs) t))
            ∙ sym (ap (λ b. some (handle_read_packets connected net (all b) t)) going)
      ]

  -- From the TUN device to the queues: while the device reports what it wrote, within its buffers, the
  -- loop does not panic, and the tunnel handles exactly the packets with a whole IPv4 or IPv6 header,
  -- in their order, up to the first error other than too many segments, each to the destination that
  -- its bytes say; no slot's earlier content shows.
  pub read_tun_packets-sent :
      (rs : List Round) (t : Tunnel)
      → AreRounds n rs
      → read_tun_packets (packets_handler connected net) n rs t
        ≡ some (handle_read_packets connected net (sent rs) t)
  unfolding read_tun_packets
  read_tun_packets-sent rs t sound =
      read_loop-sent rs (replicate n none) t sound (length-replicate n none)

-- A size behind the buffer's end, which the guard on `maxContentSize` still lets through, makes the
-- loop panic, whatever the bytes.
pub read_tun_packets_panics {ℓ} :
    {T : Type ℓ} (handler : List (Option Packet) → T → List (Option Packet) × T) (n : ℕ) (r : Read)
    (more : List Read) (error : ReadError) (spare : ℕ → List ℕ) (rs : List Round) (t : T)
    → room < r.size
    → r.size ≤ max_content_size
    → read_tun_packets handler n (record { spare = spare; reads = r ∷ more; error = error } ∷ rs) t
      ≡ none
unfolding read_tun_packets read_loop take_all take_in refill
read_tun_packets_panics handler zero r more error spare rs t big let_in = refl
read_tun_packets_panics handler (suc n) r more error spare rs t big let_in =
    let some_bytes : eqb r.size 0 ≡ false = ground arith in
    let passes : ltb 3600 r.size ≡ false = ground arith in
    let outside : ltb 3586 r.size ≡ true = ground arith in simp (some_bytes, passes, outside)
