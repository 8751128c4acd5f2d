-- ===== src/Tunnel/Routing.antt =====
-- service/tunnel.go: the table by address never leads astray. An address leads to a peer that is in
-- the table by ID and has that very address, after any refresh.
use gravil.Base.{
  ℕ, ◌≡◌, ◌⊎◌, inl, inr, refl, sym, Option, none, some, [], ◌∷◌, arith, Text, Dict, get, delete,
  text_key, text_eq_iff, nat_key, eqb, is_some, get-put, get-delete, put-Distinct, delete-Distinct,
  Distinct, Distinct-Held, Held, subst, Bool-cases,
}
use gravil.Addr.{parse_ip4}
use gravil.Config.{KnownPeer}
use gravil.Tunnel.{
  VpnPeer, Tunnel, new_vpn_peer, move_peer, add_peer, place_peer, refresh_known, refresh_all,
  drop_peer, sweep, refresh_peers_list,
}

-- The address of a peer in the table.
abbrev pub address_of : Option VpnPeer → Option ℕ
address_of none = none
address_of (some p) = some p.local_ip

pub record IsSound (t : Tunnel) : Type 0 where
  pub led : (ip : ℕ) (id : Text) → get ip t.by_ip ≡ some id → address_of (get id t.peers) ≡ some ip
  pub keyed : (id : Text) (p : VpnPeer) → get id t.peers ≡ some p → p.peer_id ≡ id
  pub distinct : Distinct t.peers

add_peer-IsSound :
    (id : Text) (ip : ℕ) (t : Tunnel)
    → get id t.peers ≡ none
    → IsSound t
    → IsSound (add_peer id ip t)
unfolding add_peer
add_peer-IsSound id ip t new s = record {
  led = λ a j e. ground (
    arith,
    get-put ip a id t.by_ip,
    get-put id j (new_vpn_peer id ip) t.peers,
    text_eq_iff id j,
    s.led a j,
  );
  keyed = λ j p e.
      ground (arith, get-put id j (new_vpn_peer id ip) t.peers, text_eq_iff id j, s.keyed j p);
  distinct = put-Distinct id (new_vpn_peer id ip) t.peers s.distinct;
}

move_peer-IsSound :
    (id : Text) (ip : ℕ) (prev : VpnPeer) (t : Tunnel)
    → get id t.peers ≡ some prev
    → IsSound t
    → IsSound (move_peer id ip prev t)
unfolding move_peer
move_peer-IsSound id ip prev t there s = elim (Bool-cases (eqb prev.local_ip ip)) [
  | inl same ↦ rw same s
  | inr other ↦ rw other (record {
    led = λ a j e. ground (
      arith,
      get-put ip a id (delete prev.local_ip t.by_ip),
      get-delete prev.local_ip a t.by_ip,
      get-put id j (record prev { local_ip = ip }) t.peers,
      text_eq_iff id j,
      s.led a j,
    );
    keyed = λ j p e. ground (
      arith,
      get-put id j (record prev { local_ip = ip }) t.peers,
      text_eq_iff id j,
      s.keyed j p,
      s.keyed id prev there,
    );
    distinct = put-Distinct id (record prev { local_ip = ip }) t.peers s.distinct;
  })
]

-- A peer that is dropped is in the table as it is, or is gone already.
abbrev pub Present : VpnPeer → Tunnel → Type 0
Present p t = (get p.peer_id t.peers ≡ some p) ⊎ (get p.peer_id t.peers ≡ none)

drop_peer-IsSound :
    (p : VpnPeer) (t : Tunnel) → Present p t → IsSound t → IsSound (drop_peer p.peer_id p t)
unfolding drop_peer
drop_peer-IsSound p t there s = record {
  led = λ a j e. ground (
    arith,
    there,
    get-delete p.local_ip a t.by_ip,
    get-delete p.peer_id j t.peers,
    text_eq_iff p.peer_id j,
    s.led a j,
  );
  keyed = λ j q e. ground (arith, get-delete p.peer_id j t.peers, s.keyed j q);
  distinct = delete-Distinct p.peer_id t.peers s.distinct;
}

abbrev pub AllPresent : Dict Text VpnPeer → Tunnel → Type 0
AllPresent [] t = Unit {0}
AllPresent ((id, p) ∷ ps) t = Present p t × AllPresent ps t

pub drop_peer-AllPresent :
    (ps : Dict Text VpnPeer) (p : VpnPeer) (t : Tunnel)
    → AllPresent ps t
    → AllPresent ps (drop_peer p.peer_id p t)
unfolding drop_peer
drop_peer-AllPresent [] p t h = tt
drop_peer-AllPresent ((id, q) ∷ ps) p t h =
    (ground (arith, h.0, get-delete p.peer_id q.peer_id t.peers), drop_peer-AllPresent ps p t h.1)

pub AllPresent-Held :
    (ps : Dict Text VpnPeer) (t : Tunnel) → IsSound t → Held ps t.peers → AllPresent ps t
AllPresent-Held [] t s h = tt
AllPresent-Held ((id, p) ∷ ps) t s h = (
  inl (subst (λ k. get k t.peers ≡ some p) (sym (s.keyed id p h.0)) h.0),
  AllPresent-Held ps t s h.1,
)

pub sweep-IsSound :
    (known : Dict Text KnownPeer) (ps : Dict Text VpnPeer) (t : Tunnel)
    → AllPresent ps t
    → IsSound t
    → IsSound (sweep known ps t)
unfolding sweep
sweep-IsSound known [] t h s = s
sweep-IsSound known ((id, p) ∷ ps) t h s = elim (Bool-cases (is_some (get p.peer_id known))) [
  | inl stays ↦ rw stays (sweep-IsSound known ps t h.1 s)
  | inr goes ↦ rw goes (
      sweep-IsSound known ps (drop_peer p.peer_id p t) (drop_peer-AllPresent ps p t h.1)
        (drop_peer-IsSound p t h.0 s))
]

refresh_known-IsSound :
    (id : Text) (o : Option ℕ) (t : Tunnel) → IsSound t → IsSound (refresh_known id o t)
unfolding refresh_known place_peer
refresh_known-IsSound id none t s = s
refresh_known-IsSound id (some ip) t s = placed (get id t.peers) refl
  where
    placed : (o : Option VpnPeer) → get id t.peers ≡ o → IsSound (place_peer id ip o t)
    placed none e = add_peer-IsSound id ip t e s
    placed (some prev) e = move_peer-IsSound id ip prev t e s

pub refresh_all-IsSound :
    (ipv6 : Text → Option ℕ) (known : Dict Text KnownPeer) (t : Tunnel)
    → IsSound t
    → IsSound (refresh_all ipv6 known t)
unfolding refresh_all
refresh_all-IsSound ipv6 [] t s = s
refresh_all-IsSound ipv6 ((k, p) ∷ ps) t s =
    refresh_all-IsSound ipv6 ps (refresh_known p.peer_id (parse_ip4 ipv6 p.ip_addr) t)
      (refresh_known-IsSound p.peer_id (parse_ip4 ipv6 p.ip_addr) t s)

-- After any refresh an address leads only to a peer of the table that has this address, whatever
-- addresses the configuration holds.
pub refresh_peers_list-IsSound :
    (ipv6 : Text → Option ℕ) (known : Dict Text KnownPeer) (t : Tunnel)
    → IsSound t
    → IsSound (refresh_peers_list ipv6 known t)
unfolding refresh_peers_list
refresh_peers_list-IsSound ipv6 known t s =
    let s' = refresh_all-IsSound ipv6 known t s in
    sweep-IsSound known (refresh_all ipv6 known t).peers (refresh_all ipv6 known t)
      (AllPresent-Held _ (refresh_all ipv6 known t) s' (Distinct-Held _ s'.distinct)) s'
