-- ===== src/Tunnel/Outbound.antt =====
-- service/tunnel.go: what `HandleReadPackets` puts into the queue of each peer.
use gravil.Base.{
  ℕ, suc, ◌-◌, ◌≡◌, inl, inr, refl, sym, ap, ap₂, ◌∙◌, subst, Bool, true, false, ◌&&◌, Option, none,
  some, List, [], ◌∷◌, ◌++◌, append-nil, append_assoc, take-nil, arith, Text, Dict, get, Distinct,
  text_key, nat_key, ltb, length, take, length-append, if◌then◌else◌, Bool-cases,
}
use gravil.Addr.{Ip, v4, v6}
use gravil.Tunnel.Routing.{address_of, IsSound}
use gravil.Tunnel.Broadcast.{
  leads_to, again, offer_to-peers, offer_to-by_ip, broadcast-peers, broadcast-by_ip, entries-one,
}
use gravil.Tunnel.Meant.{is_routed, routed, meant, routed-meant}
use gravil.Tunnel.{
  VpnPeer, Tunnel, Outgoing, packet_handlers_chan_cap, offer, broadcast, unicast, route,
  is_broadcast, handle_packet, handle_all, handle_read_packets,
}

-- One payload after the other is offered to the queue.
abbrev offered : List (List ℕ) → VpnPeer → VpnPeer
offered [] q = q
offered (x ∷ xs) q = offered xs (offer x q)

once :
    (b c : Bool) (x : List ℕ) (q : VpnPeer)
    → again (if b then (if c then 1 else 0) else 0) x q ≡ (if b && c then offer x q else q)
once true true x q = refl
once true false x q = refl
once false c x q = refl

unicast-peers :
    (id : Text) (x : List ℕ) (o : Option Text) (t : Tunnel) (q : VpnPeer)
    → get id t.peers ≡ some q
    → get id (unicast x o t).peers ≡ some (if leads_to id o then offer x q else q)
unfolding unicast
unicast-peers id x none t q e = e
unicast-peers id x (some j) t q e = offer_to-peers j id x t q e

unicast-by_ip : (x : List ℕ) (o : Option Text) (t : Tunnel) → (unicast x o t).by_ip ≡ t.by_ip
unfolding unicast
unicast-by_ip x none t = refl
unicast-by_ip x (some j) t = offer_to-by_ip j x (get j t.peers) t

-- One packet: the queue of a peer with one address gets it exactly if it is routed to the peer.
handle_packet-peers :
    (connected : Text → Bool) (net : ℕ) (id : Text) (a : ℕ) (p : Outgoing) (t : Tunnel)
    (q : VpnPeer)
    → Distinct t.by_ip
    → ((ip : ℕ) → get ip t.by_ip ≡ some id → ip ≡ a)
    → get id t.peers ≡ some q
    → (get id (handle_packet connected net p t).peers
        ≡ some (if is_routed connected net id a t p then offer p.payload q else q))
      × ((handle_packet connected net p t).by_ip ≡ t.by_ip)
unfolding handle_packet
handle_packet-peers connected net id a p t q d one e =
    let wide = broadcast connected p.payload t.by_ip t in
    let result : Bool → Tunnel = λ b. if b then wide else unicast p.payload (route p.dst t) t in
    let means : Bool → Bool =
      λ b. if b then connected id && leads_to id (get a t.by_ip) else leads_to id (route p.dst t) in
    elim (Bool-cases (is_broadcast net p.dst)) [
      | inl all ↦ (
        ap (λ b. get id (result b).peers) all
            ∙ broadcast-peers connected id p.payload t.by_ip t q e
            ∙ ap (λ n. some (again (if connected id then n else 0) p.payload q))
                (entries-one id a t.by_ip d one)
            ∙ ap some (once (connected id) (leads_to id (get a t.by_ip)) p.payload q)
            ∙ sym (ap (λ b. some (if means b then offer p.payload q else q)) all),
        ap (λ b. (result b).by_ip) all ∙ broadcast-by_ip connected p.payload t.by_ip t,
      )
      | inr single ↦ (
        ap (λ b. get id (result b).peers) single
            ∙ unicast-peers id p.payload (route p.dst t) t q e
            ∙ sym (ap (λ b. some (if means b then offer p.payload q else q)) single),
        ap (λ b. (result b).by_ip) single ∙ unicast-by_ip p.payload (route p.dst t) t,
      )
    ]

route-same : (dst : Ip) (t u : Tunnel) → t.by_ip ≡ u.by_ip → route dst t ≡ route dst u
unfolding route
route-same (v4 a) t u e = ap (get a) e
route-same (v6 a) t u e = refl

routed-same :
    (connected : Text → Bool) (net : ℕ) (id : Text) (a : ℕ) (t u : Tunnel) (ps : List Outgoing)
    → t.by_ip ≡ u.by_ip
    → routed connected net id a t ps ≡ routed connected net id a u ps
routed-same connected net id a t u [] e = refl
routed-same connected net id a t u (p ∷ ps) e =
    let ih = routed-same connected net id a t u ps e in
    let m : is_routed connected net id a t p ≡ is_routed connected net id a u p =
      ap₂ (λ x y. if is_broadcast net p.dst then connected id && leads_to id x else leads_to id y)
        (ap (get a) e) (route-same p.dst t u e) in
    ap₂ (λ b l. if b then p.payload ∷ l else l) m ih

offered-if :
    (m : Bool) (x : List ℕ) (xs : List (List ℕ)) (q : VpnPeer)
    → offered xs (if m then offer x q else q) ≡ offered (if m then x ∷ xs else xs) q
offered-if true x xs q = refl
offered-if false x xs q = refl

handle_all-peers :
    (connected : Text → Bool) (net : ℕ) (id : Text) (a : ℕ) (ps : List Outgoing) (t : Tunnel)
    (q : VpnPeer)
    → Distinct t.by_ip
    → ((ip : ℕ) → get ip t.by_ip ≡ some id → ip ≡ a)
    → get id t.peers ≡ some q
    → get id (handle_all connected net ps t).peers
      ≡ some (offered (routed connected net id a t ps) q)
unfolding handle_all
handle_all-peers connected net id a [] t q d one e = e
handle_all-peers connected net id a (p ∷ ps) t q d one e =
    let next = handle_packet connected net p t in
    let m = is_routed connected net id a t p in
    let h = handle_packet-peers connected net id a p t q d one e in
    handle_all-peers connected net id a ps next (if m then offer p.payload q else q)
      (subst (λ (d : Dict ℕ Text). Distinct d) (sym h.1) d)
      (λ ip f. one ip (ap (get ip) (sym h.1) ∙ f)) h.0
    ∙ ap (λ l. some (offered l (if m then offer p.payload q else q)))
        (routed-same connected net id a next t ps h.1)
    ∙ ap some (offered-if m p.payload (routed connected net id a t ps) q)

-- The queue takes what it has room for.
abbrev pub filled : List (List ℕ) → VpnPeer → VpnPeer
filled xs q = record q {
  outbound = q.outbound ++ take (packet_handlers_chan_cap - length q.outbound) xs;
}

offered-filled : (xs : List (List ℕ)) (q : VpnPeer) → offered xs q ≡ filled xs q
unfolding offer
offered-filled [] q = sym (
    ap (λ l. record q { outbound = l })
      (ap (λ l. q.outbound ++ l) (take-nil (packet_handlers_chan_cap - length q.outbound))
        ∙ append-nil q.outbound))
offered-filled (x ∷ xs) q =
    let with_out : List (List ℕ) → VpnPeer = λ l. record q { outbound = l } in
    let more = q.outbound ++ x ∷ [] in
    elim (Bool-cases (ltb (length q.outbound) packet_handlers_chan_cap)) [
      | inl room ↦
          let k = packet_handlers_chan_cap - length more in
          let left : packet_handlers_chan_cap - length q.outbound ≡ suc k =
            ground (arith, room, length-append q.outbound (x ∷ [])) in
          ap (λ b. offered xs (if b then with_out more else q)) room
          ∙ offered-filled xs (with_out more)
          ∙ ap with_out (
              append_assoc q.outbound (x ∷ []) (take k xs)
              ∙ sym (ap (λ n. q.outbound ++ take n (x ∷ xs)) left))
      | inr full ↦
          let left : packet_handlers_chan_cap - length q.outbound ≡ 0 = ground (arith, full) in
          ap (λ b. offered xs (if b then with_out more else q)) full
          ∙ offered-filled xs q
          ∙ ap with_out (
              ap (λ n. q.outbound ++ take n xs) left
              ∙ sym (ap (λ n. q.outbound ++ take n (x ∷ xs)) left))
    ]

-- In an open tunnel with a sound table, the queue of each peer gets the payloads of exactly the
-- packets that are meant for it, in their order, as long as it has room: where the table leads from
-- the peer's address to the peer, those to this address, and if the peer is connected, each packet to
-- the network's broadcast address or to 255.255.255.255 once. Nothing else of the peer changes. A
-- closed tunnel stays as it is.
pub handle_read_packets-filled :
    (connected : Text → Bool) (net : ℕ) (id : Text) (ps : List Outgoing) (t : Tunnel) (q : VpnPeer)
    → IsSound t
    → Distinct t.by_ip
    → get id t.peers ≡ some q
    → get id (handle_read_packets connected net ps t).peers
      ≡ some (if t.is_closed then q else filled (meant connected net id q.local_ip t ps) q)
unfolding handle_read_packets
handle_read_packets-filled connected net id ps t q sound d e =
    let one : (ip : ℕ) → get ip t.by_ip ≡ some id → ip ≡ q.local_ip =
      λ ip f. cc (sound.led ip id f, ap address_of e) in
    elim (Bool-cases t.is_closed) [
      | inl closed ↦ simp closed e
      | inr still_open ↦ simp still_open (
          handle_all-peers connected net id q.local_ip ps t q d one e
          ∙ ap (λ l. some (offered l q)) (routed-meant id q.local_ip t one connected net ps)
          ∙ ap some (offered-filled (meant connected net id q.local_ip t ps) q))
    ]
