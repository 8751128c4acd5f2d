-- ===== src/Config/Defaults/Again.antt =====
-- config/other.go: the peers that the loop of `setDefaults` leaves as they are.
use gravil.Base.{
  ℕ, ◌≡◌, inl, inr, refl, sym, ap, ◌∙◌, false, Option, some, List, [], ◌∷◌, ◌++◌, arith, Text, Dict,
  text_key, elem, Bool-cases, append_assoc, append-nil, first_free,
}
use gravil.Addr.{Network, show_byte, show_ip}
use gravil.Config.{KnownPeer}
use gravil.Config.Peers.{is_empty, peer_display_name}
use gravil.Config.Alias.{aliases, gen_uniq_peer_alias}
use gravil.Config.Address.{generate_next_ip_addr, generate_next_ip_addr_except, candidate, max_ip}
use gravil.Config.Defaults.{System, or_default, fill_peer, fill_peers}
use gravil.Config.Defaults.Aliases.{fill_peer-alias}

show_ip_some : (a : ℕ) → is_empty (show_ip a) ≡ false
unfolding show_ip show_byte
show_ip_some a = ground arith

-- A generated address is a text.
pub generates :
    (ipv6 : Text → Option ℕ) (vpn : Network) (table : Dict Text KnownPeer)
    → (s : Text) × (generate_next_ip_addr ipv6 vpn table ≡ some s) × (is_empty s ≡ false)
unfolding generate_next_ip_addr generate_next_ip_addr_except first_free elem
generates ipv6 vpn table = (candidate (max_ip ipv6 vpn vpn.address table) 0, refl, show_ip_some _)

or_default_again : (d s : Text) → or_default d (or_default d s) ≡ or_default d s
or_default_again d s = ground arith

kept_alias :
    (name alias : Text) (used : List Text)
    → is_empty alias ≡ false
    → elem alias used ≡ false
    → gen_uniq_peer_alias name alias used ≡ some alias
unfolding gen_uniq_peer_alias
kept_alias name [] used h n = cc
kept_alias name (c ∷ alias) used h n = rw n refl

module _ (sys : System) (vpn : Network) where
  -- A peer that the loop leaves as it is.
  pub record Stable (used : List Text) (p : KnownPeer) : Type 0 where
    pub free : elem p.alias used ≡ false
    pub named : is_empty p.alias ≡ false
    pub placed : is_empty p.ip_addr ≡ false
    pub domain :
        or_default (sys.trim_domain_name (peer_display_name p)) p.domain_name ≡ p.domain_name

  fill_peer_same :
      (used : List Text) (table : Dict Text KnownPeer) (p : KnownPeer)
      → Stable used p
      → fill_peer sys vpn used table p ≡ p
  unfolding fill_peer
  fill_peer_same used table p s =
      rw (kept_alias p.name p.alias used s.named s.free, s.placed)
        (ap (λ d. record p { domain_name = d }) s.domain)

  fill_peer-ip :
      (used : List Text) (table : Dict Text KnownPeer) (p : KnownPeer)
      → is_empty (fill_peer sys vpn used table p).ip_addr ≡ false
  unfolding fill_peer
  fill_peer-ip used table p =
      let g = generates sys.ipv6 vpn table in
      elim (Bool-cases (is_empty p.ip_addr)) [
        | inl none_yet ↦ rw (none_yet, g.1) g.2
        | inr there ↦ rw there there
      ]

  fill_peer-Stable :
      (used : List Text) (table : Dict Text KnownPeer) (p : KnownPeer)
      → Stable used (fill_peer sys vpn used table p)
  unfolding fill_peer peer_display_name
  fill_peer-Stable used table p = record {
    free = (fill_peer-alias sys vpn used table p).0;
    named = (fill_peer-alias sys vpn used table p).1;
    placed = fill_peer-ip used table p;
    domain = or_default_again _ p.domain_name;
  }

  abbrev pub AllStable : Dict Text KnownPeer → Dict Text KnownPeer → Type 0
  AllStable before [] = Unit {0}
  AllStable before ((id, p) ∷ ps) =
      Stable (aliases before) p × AllStable (before ++ (id, p) ∷ []) ps

  pub fill_peers_same :
      (ps before : Dict Text KnownPeer)
      → AllStable before ps
      → fill_peers sys vpn before ps ≡ before ++ ps
  unfolding fill_peers
  fill_peers_same [] before h = sym (append-nil before)
  fill_peers_same ((id, p) ∷ ps) before h =
      ap (λ q. fill_peers sys vpn (before ++ (id, q) ∷ []) ps)
        (fill_peer_same (aliases before) (before ++ (id, p) ∷ ps) p h.0)
      ∙ fill_peers_same ps (before ++ (id, p) ∷ []) h.1
      ∙ append_assoc before ((id, p) ∷ []) ps

  pub filled :
      (ps before : Dict Text KnownPeer)
      → (out : Dict Text KnownPeer) × (fill_peers sys vpn before ps ≡ before ++ out)
        × AllStable before out
  unfolding fill_peers
  filled [] before = ([], sym (append-nil before), tt)
  filled ((id, p) ∷ ps) before =
      let q = fill_peer sys vpn (aliases before) (before ++ (id, p) ∷ ps) p in
      let rest = filled ps (before ++ (id, q) ∷ []) in
      (
        (id, q) ∷ rest.0,
        rest.1 ∙ append_assoc before ((id, q) ∷ []) rest.0,
        (fill_peer-Stable (aliases before) (before ++ (id, p) ∷ ps) p, rest.2),
      )
