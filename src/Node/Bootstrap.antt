-- ===== src/Node/Bootstrap.antt =====
-- config/config.go: the addresses of the node that are read from the configuration.
use gravil.Base.{
  ◌≡◌, refl, ap, ap₂, ◌∙◌, Bool, true, false, ◌&&◌, Option, none, some, List, [], ◌∷◌, ◌++◌, Text,
  map, arith, Bool-cases, inl, inr,
}
use gravil.Config.{Config, Store}
use gravil.Config.Peers.{set_listen_addresses}
use gravil.Node.{
  Packages, with_parsed, parse_all, get_listen_addresses, default_bootstrap_peers, is_set,
  all_multiaddrs, or_default_peers, get_bootstrap_peers,
}

abbrev pub all_name : {A : Type 0} → (A → Bool) → List A → Bool
all_name names [] = true
all_name names (a ∷ rest) = names a && all_name names rest

module _ {K A I : Type 0} (lib : Packages K A I) where
  parse_all-append :
      (ss ts : List Text) → parse_all lib (ss ++ ts) ≡ parse_all lib ss ++ parse_all lib ts
  unfolding parse_all with_parsed
  parse_all-append [] ts = refl
  parse_all-append (s ∷ ss) ts =
      ap (with_parsed lib (lib.new_multiaddr s)) (parse_all-append ss ts)
      ∙ with_append (lib.new_multiaddr s) (parse_all lib ss)
    where
      with_append :
          (o : Option A) (rest : List A)
          → with_parsed lib o (rest ++ parse_all lib ts)
            ≡ with_parsed lib o rest ++ parse_all lib ts
      with_append none rest = refl
      with_append (some a) rest = refl

  module _ (names : A → Bool) where
    all_name_around :
        (before after : List A) (a : A)
        → names a ≡ false
        → all_name names (before ++ a ∷ after) ≡ false
    all_name_around [] after a e = rw e refl
    all_name_around (b ∷ before) after a e = rw (all_name_around before after a e) (never (names b))
      where
        never : (b : Bool) → b && false ≡ false
        never true = refl
        never false = refl

    all_name_append :
        (own more : List A) → all_name names own ≡ false → all_name names (own ++ more) ≡ false
    all_name_append [] more e = absurd (ground (arith, e))
    all_name_append (a ∷ own) more e = ground (arith, e, all_name_append own more)

    own_refused :
        (ss ts : List Text) (s : Text) (a : A)
        → lib.new_multiaddr s ≡ some a
        → names a ≡ false
        → all_name names (parse_all lib (ss ++ s ∷ ts)) ≡ false
    unfolding parse_all with_parsed
    own_refused ss ts s a parsed e =
        ap (all_name names) (
          parse_all-append ss (s ∷ ts)
          ∙ ap (λ o. parse_all lib ss ++ with_parsed lib o (parse_all lib ts)) parsed)
        ∙ all_name_around (parse_all lib ss) (parse_all lib ts) a e

    -- Where `AddrInfosFromP2pAddrs` refuses a list with an address that names no peer: one such address
    -- in the configuration, and the default peers take the place of all that are configured, also
    -- where the configuration says that the defaults are to be ignored.
    pub get_bootstrap_peers_replaced :
        (c : Config) (ss ts : List Text) (s : Text) (a : A)
        → ((as' : List A) → all_name names as' ≡ false → lib.addr_infos as' ≡ none)
        → c.p2p_node.bootstrap_peers ≡ ss ++ s ∷ ts
        → lib.new_multiaddr s ≡ some a
        → names a ≡ false
        → get_bootstrap_peers lib c ≡ lib.addr_infos (default_bootstrap_peers lib)
    unfolding get_bootstrap_peers all_multiaddrs or_default_peers
    get_bootstrap_peers_replaced c ss ts s a refuses has parsed e =
        let own = parse_all lib c.p2p_node.bootstrap_peers in
        let own_bad : all_name names own ≡ false =
          ap (λ l. all_name names (parse_all lib l)) has ∙ own_refused ss ts s a parsed e in
        let refused : lib.addr_infos (all_multiaddrs lib c) ≡ none =
          elim (Bool-cases (is_set c.p2p_node.ignore_default_bootstrap_peers)) [
            | inl ignored ↦ rw ignored (refuses own own_bad)
            | inr wanted ↦
                rw wanted (refuses _ (all_name_append own (default_bootstrap_peers lib) own_bad))
          ] in
        ap (or_default_peers lib) refused

  -- The addresses that are set, written as texts that parse, are the ones that are read.
  get_listen_addresses-set_listen_addresses :
      (show : A → Text) (addrs : List A) (s : Store)
      → ((a : A) → lib.new_multiaddr (show a) ≡ some a)
      → get_listen_addresses lib (set_listen_addresses (map show addrs) s).conf ≡ addrs
  unfolding get_listen_addresses set_listen_addresses parse_all with_parsed
  get_listen_addresses-set_listen_addresses show addrs s parsed = each addrs
    where
      each : (as' : List A) → parse_all lib (map show as') ≡ as'
      each [] = refl
      each (a ∷ rest) = ap₂ (with_parsed lib) (parsed a) (each rest)
