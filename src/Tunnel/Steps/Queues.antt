-- ===== src/Tunnel/Steps/Queues.antt =====
-- service/tunnel.go: what the operations on the tables keep of a tunnel and its queues.
use gravil.Base.{
  subst, ℕ, ◌≤◌, ◌≡◌, inl, inr, refl, Option, none, some, List, [], ◌∷◌, ◌++◌, arith, Text, Dict,
  get, put, text_key, text_eq_iff, nat_key, Bool, true, false, is_some, eqb, ltb, length,
  length-append, length-drop, get-put, get-delete, put-Distinct, Bool-cases, if◌then◌else◌,
}
use gravil.Addr.{parse_ip4}
use gravil.Config.{KnownPeer}
use gravil.Tunnel.{
  VpnPeer, Tunnel, new_vpn_peer, packet_handlers_chan_cap, move_peer, add_peer, place_peer,
  refresh_known, refresh_all, drop_peer, sweep, refresh_peers_list, Outgoing, offer, offer_to,
  broadcast, unicast, route, handle_packet, handle_all, handle_read_packets, is_broadcast,
}
use gravil.Tunnel.Routing.{IsSound, refresh_peers_list-IsSound}
use gravil.Tunnel.Receive.{accept, accept_for, receive_packet}
use gravil.Tunnel.Steps.{taken_off}

-- No channel holds more than its capacity.
abbrev pub Fits : VpnPeer → Type 0
Fits p =
    (length p.inbound ≤ packet_handlers_chan_cap) × (length p.outbound ≤ packet_handlers_chan_cap)

abbrev pub AllFit : Tunnel → Type 0
AllFit t = (id : Text) (p : VpnPeer) → get id t.peers ≡ some p → Fits p

pub record IsSafe (t : Tunnel) : Type 0 where
  pub sound : IsSound t
  pub fits : AllFit t

-- What stands in the table for a peer keeps its ID and its address.
pub requeued-IsSafe :
    (id : Text) (p q : VpnPeer) (t : Tunnel)
    → get id t.peers ≡ some p
    → q.peer_id ≡ p.peer_id
    → q.local_ip ≡ p.local_ip
    → Fits q
    → IsSafe t
    → IsSafe (record t { peers = put id q t.peers })
requeued-IsSafe id p q t there same_id same_ip fit s = record {
  sound = record {
    led = λ a j e.
        ground (arith, get-put id j q t.peers, text_eq_iff id j, s.sound.led a j, there, same_ip);
    keyed = λ j r e. ground (
      arith,
      get-put id j q t.peers,
      text_eq_iff id j,
      s.sound.keyed j r,
      s.sound.keyed id p there,
      same_id,
    );
    distinct = put-Distinct id q t.peers s.sound.distinct;
  };
  fits = λ j r e. ground (arith, get-put id j q t.peers, s.fits j r, fit);
}

offer-Fits : (bs : List ℕ) (p : VpnPeer) → Fits p → Fits (offer bs p)
unfolding offer
offer-Fits bs p f = ground (arith, f, length-append p.outbound (bs ∷ []))

offer-keeps :
    (bs : List ℕ) (p : VpnPeer)
    → ((offer bs p).peer_id ≡ p.peer_id) × ((offer bs p).local_ip ≡ p.local_ip)
unfolding offer
offer-keeps bs p = elim (Bool-cases (ltb (length p.outbound) packet_handlers_chan_cap)) [
  | inl e ↦ rw e (refl, refl)
  | inr e ↦ rw e (refl, refl)
]

offer_to-IsSafe :
    (id : Text) (bs : List ℕ) (o : Option VpnPeer) (t : Tunnel)
    → get id t.peers ≡ o
    → IsSafe t
    → IsSafe (offer_to id bs o t)
unfolding offer_to
offer_to-IsSafe id bs none t e s = s
offer_to-IsSafe id bs (some p) t e s =
    let keeps = offer-keeps bs p in
    requeued-IsSafe id p (offer bs p) t e keeps.0 keeps.1 (offer-Fits bs p (s.fits id p e)) s

broadcast-IsSafe :
    (connected : Text → Bool) (bs : List ℕ) (ips : Dict ℕ Text) (t : Tunnel)
    → IsSafe t
    → IsSafe (broadcast connected bs ips t)
unfolding broadcast
broadcast-IsSafe connected bs [] t s = s
broadcast-IsSafe connected bs ((a, id) ∷ ips) t s =
    broadcast-IsSafe connected bs ips _ (one (connected id))
  where
    one : (c : Bool) → IsSafe (if c then offer_to id bs (get id t.peers) t else t)
    one true = offer_to-IsSafe id bs (get id t.peers) t refl s
    one false = s

unicast-IsSafe : (bs : List ℕ) (o : Option Text) (t : Tunnel) → IsSafe t → IsSafe (unicast bs o t)
unfolding unicast
unicast-IsSafe bs none t s = s
unicast-IsSafe bs (some id) t s = offer_to-IsSafe id bs (get id t.peers) t refl s

handle_all-IsSafe :
    (connected : Text → Bool) (net : ℕ) (ps : List Outgoing) (t : Tunnel)
    → IsSafe t
    → IsSafe (handle_all connected net ps t)
unfolding handle_all handle_packet
handle_all-IsSafe connected net [] t s = s
handle_all-IsSafe connected net (p ∷ ps) t s =
    handle_all-IsSafe connected net ps _ (one (is_broadcast net p.dst))
  where
    one :
        (b : Bool)
        → IsSafe (
            if b
            then broadcast connected p.payload t.by_ip t
            else unicast p.payload (route p.dst t) t)
    one true = broadcast-IsSafe connected p.payload t.by_ip t s
    one false = unicast-IsSafe p.payload (route p.dst t) t s

pub handle_read_packets-IsSafe :
    (connected : Text → Bool) (net : ℕ) (ps : List Outgoing) (t : Tunnel)
    → IsSafe t
    → IsSafe (handle_read_packets connected net ps t)
unfolding handle_read_packets
handle_read_packets-IsSafe connected net ps t s = elim (Bool-cases t.is_closed) [
  | inl e ↦ simp e s
  | inr e ↦ simp e (handle_all-IsSafe connected net ps t s)
]

pub receive_packet-IsSafe :
    (id : Text) (bs : List ℕ) (t t' : Tunnel)
    → receive_packet id bs t ≡ some t'
    → IsSafe t
    → IsSafe t'
unfolding receive_packet accept_for accept
receive_packet-IsSafe id bs t t' e s = put_in (get id t.peers) refl e
  where
    more :
        (p : VpnPeer)
        → get id t.peers ≡ some p
        → IsSafe (record t { peers = put id (accept bs p) t.peers })
    more p there = elim (Bool-cases (ltb (length p.inbound) packet_handlers_chan_cap)) [
      | inl e ↦ rw e (
          requeued-IsSafe id p (record p { inbound = p.inbound ++ bs ∷ [] }) t there refl refl
            (ground (arith, e, s.fits id p there, length-append p.inbound (bs ∷ []))) s)
      | inr e ↦ rw e (requeued-IsSafe id p p t there refl refl (s.fits id p there) s)
    ]

    put_in : (o : Option VpnPeer) → get id t.peers ≡ o → accept_for id bs o t ≡ some t' → IsSafe t'
    put_in none there k = absurd (ground (arith, k))
    put_in (some p) there k = subst IsSafe (ground (arith, k)) (more p there)

pub taken_off-IsSafe :
    (id : Text) (p : VpnPeer) (i o : ℕ) (t : Tunnel)
    → get id t.peers ≡ some p
    → IsSafe t
    → IsSafe (record t { peers = put id (taken_off i o p) t.peers })
unfolding taken_off
taken_off-IsSafe id p i o t there s =
    let fit = s.fits id p there in
    requeued-IsSafe id p (taken_off i o p) t there refl refl
      (
        omega (arith, fit.0, length-drop i p.inbound),
        omega (arith, fit.1, length-drop o p.outbound),
      )
      s

refresh_all-AllFit :
    (ipv6 : Text → Option ℕ) (known : Dict Text KnownPeer) (t : Tunnel)
    → AllFit t
    → AllFit (refresh_all ipv6 known t)
unfolding refresh_all refresh_known place_peer add_peer move_peer
refresh_all-AllFit ipv6 [] t f = f
refresh_all-AllFit ipv6 ((k, q) ∷ qs) t f =
    refresh_all-AllFit ipv6 qs _ (known_one (parse_ip4 ipv6 q.ip_addr))
  where
    placed :
        (ip : ℕ) (o : Option VpnPeer)
        → get q.peer_id t.peers ≡ o
        → AllFit (place_peer q.peer_id ip o t)
    placed ip none e =
        λ j r h. ground (arith, get-put q.peer_id j (new_vpn_peer q.peer_id ip) t.peers, f j r)
    placed ip (some prev) e = elim (Bool-cases (eqb prev.local_ip ip)) [
      | inl same ↦ rw same f
      | inr other ↦ rw other (λ j r h. ground (
        arith,
        get-put q.peer_id j (record prev { local_ip = ip }) t.peers,
        f j r,
        f q.peer_id prev e,
      ))
    ]

    known_one : (o : Option ℕ) → AllFit (refresh_known q.peer_id o t)
    known_one none = f
    known_one (some ip) = placed ip (get q.peer_id t.peers) refl

pub sweep-AllFit :
    (known : Dict Text KnownPeer) (ps : Dict Text VpnPeer) (t : Tunnel)
    → AllFit t
    → AllFit (sweep known ps t)
unfolding sweep drop_peer
sweep-AllFit known [] t f = f
sweep-AllFit known ((k, p) ∷ ps) t f = sweep-AllFit known ps _ (one (is_some (get p.peer_id known)))
  where
    one : (b : Bool) → AllFit (if b then t else drop_peer p.peer_id p t)
    one true = f
    one false = λ j r h. ground (arith, get-delete p.peer_id j t.peers, f j r)

pub refresh_peers_list-IsSafe :
    (ipv6 : Text → Option ℕ) (known : Dict Text KnownPeer) (t : Tunnel)
    → IsSafe t
    → IsSafe (refresh_peers_list ipv6 known t)
unfolding refresh_peers_list
refresh_peers_list-IsSafe ipv6 known t s = record {
  sound = refresh_peers_list-IsSound ipv6 known t s.sound;
  fits =
      sweep-AllFit known (refresh_all ipv6 known t).peers (refresh_all ipv6 known t)
        (refresh_all-AllFit ipv6 known t s.fits);
}
