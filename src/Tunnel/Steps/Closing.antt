-- ===== src/Tunnel/Steps/Closing.antt =====
-- service/tunnel.go: `Close` leaves neither a peer nor an address.
use gravil.Base.{
  ℕ, ◌≡◌, refl, true, Option, none, some, [], ◌∷◌, arith, Text, Dict, get, text_key, text_eq_iff,
  nat_key, get-delete, Held, Distinct-Held,
}
use gravil.Tunnel.{VpnPeer, Tunnel, drop_peer, sweep, close}
use gravil.Tunnel.Routing.{IsSound, AllPresent-Held, sweep-IsSound}
use gravil.Tunnel.Steps.Queues.{IsSafe, sweep-AllFit}

-- Every peer that is left is still to be swept.
abbrev Covers : Dict Text VpnPeer → Tunnel → Type 0
Covers ps t = (id : Text) → get id ps ≡ none → get id t.peers ≡ none

abbrev AllKeyed : Dict Text VpnPeer → Type 0
AllKeyed [] = Unit {0}
AllKeyed ((k, p) ∷ ps) = (p.peer_id ≡ k) × AllKeyed ps

Held-AllKeyed : (ps : Dict Text VpnPeer) (t : Tunnel) → IsSound t → Held ps t.peers → AllKeyed ps
Held-AllKeyed [] t s h = tt
Held-AllKeyed ((k, p) ∷ ps) t s h = (s.keyed k p h.0, Held-AllKeyed ps t s h.1)

sweep-Covers :
    (ps : Dict Text VpnPeer) (t : Tunnel)
    → AllKeyed ps
    → Covers ps t
    → (id : Text) → get id (sweep [] ps t).peers ≡ none
unfolding sweep drop_peer get
sweep-Covers [] t k c id = c id refl
sweep-Covers ((j, p) ∷ ps) t k c id =
    sweep-Covers ps (drop_peer p.peer_id p t) k.1
      (λ i e. ground (
        arith,
        get-delete p.peer_id i t.peers,
        k.0,
        text_eq_iff p.peer_id i,
        text_eq_iff j i,
        c i,
        e,
      ))
      id

-- Neither table has an entry.
abbrev pub IsEmptied : Tunnel → Type 0
IsEmptied t = ((id : Text) → get id t.peers ≡ none) × ((ip : ℕ) → get ip t.by_ip ≡ none)

emptied : (t : Tunnel) → IsSound t → ((id : Text) → get id t.peers ≡ none) → IsEmptied t
emptied t s gone = (gone, λ ip. no_address ip (get ip t.by_ip) refl)
  where
    no_address : (ip : ℕ) (o : Option Text) → get ip t.by_ip ≡ o → o ≡ none
    no_address ip none e = refl
    no_address ip (some id) e = absurd (ground (arith, s.led ip id e, gone id))

shut : Tunnel → Tunnel
shut t = record t { is_closed = true }

shut-IsSafe : (t : Tunnel) → IsSafe t → IsSafe (shut t)
unfolding shut
shut-IsSafe t s = record {
  sound = record { led = s.sound.led; keyed = s.sound.keyed; distinct = s.sound.distinct };
  fits = s.fits;
}

pub close-IsSafe : (t : Tunnel) → IsSafe t → IsSafe (close t)
unfolding close shut
close-IsSafe t s =
    let s' = shut-IsSafe t s in
    let held = Distinct-Held t.peers s.sound.distinct in
    record {
      sound =
          sweep-IsSound [] t.peers (shut t) (AllPresent-Held t.peers (shut t) s'.sound held)
            s'.sound;
      fits = sweep-AllFit [] t.peers (shut t) s'.fits;
    }

pub close-IsEmptied : (t : Tunnel) → IsSafe t → IsEmptied (close t)
unfolding close shut
close-IsEmptied t s =
    let held = Distinct-Held t.peers s.sound.distinct in
    emptied (close t) (close-IsSafe t s).sound
      (sweep-Covers t.peers (shut t) (Held-AllKeyed t.peers t s.sound held) (λ id e. e))
