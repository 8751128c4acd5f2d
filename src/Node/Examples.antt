-- ===== src/Node/Examples.antt =====
-- The identity and the addresses of a node with keys that are numbers, and the theorems at it.
use gravil.Base.{
  ℕ, ◌≡◌, ◌<◌, refl, ap, eqb, length, if◌then◌else◌, Bool, true, false, Option, none, some, List,
  [], ◌∷◌, text, arith,
}
use gravil.Config.Examples.{conf}
use gravil.Config.Peers.{is_empty}
use gravil.Config.{Store, Config}
use gravil.Node.{
  Packages, running, default_bootstrap_peers, get_bootstrap_peers, priv_key, set_identity, host_key,
  start, start_with, identified, init_host, make_host, or_default_peers, all_multiaddrs, parse_all,
  with_parsed,
}
use gravil.Node.Start.{IsLawful, start-again}
use gravil.Node.Bootstrap.{all_name, get_bootstrap_peers_replaced}

-- An address that begins with a slash names a peer.
abbrev names : ℕ → Bool
names a = eqb a 47

abbrev first : List ℕ → Option ℕ
first [] = none
first (b ∷ bs) = some b

abbrev lib : Packages ℕ ℕ ℕ
lib = record {
  encode = λ bs. bs;
  decode = λ s. some s;
  raw = λ key. key ∷ [];
  unmarshal = first;
  id_of = λ key. key ∷ [];
  new_multiaddr = first;
  addr_infos = λ as'. if all_name names as' then some as' else none;
}

lib-IsLawful : IsLawful lib
lib-IsLawful = record {
  decoded = λ bs. refl;
  written = written;
  has_bytes = λ key. omega arith;
  restored = λ key. refl;
}
  where
    written : (bs : List ℕ) → 0 < length bs → is_empty bs ≡ false
    written [] h = absurd (omega (arith, h))
    written (b ∷ bs) h = refl

-- A configuration with two addresses of which one names no peer, and without an identity.
abbrev own_peers : Config
own_peers = record conf {
  p2p_node = record conf.p2p_node {
    identity = [];
    bootstrap_peers = text "/own" ∷ text "relay" ∷ [];
    ignore_default_bootstrap_peers = some true;
  };
}

abbrev stored : Store
stored = record { conf = own_peers; file = none; emitted = 0 }

first_start : start lib false (λ key. true) (some 7) stored ≡ running (set_identity lib 7 stored)
unfolding start start_with identified init_host make_host host_key priv_key get_bootstrap_peers
    or_default_peers all_multiaddrs parse_all with_parsed
first_start = refl

start-again_example :
    (key : ℕ) × (host_key lib (some 7) (priv_key lib stored.conf) ≡ some key)
    × (set_identity lib 7 stored ≡ set_identity lib key stored)
    × ((set_identity lib 7 stored).file ≡ some (set_identity lib 7 stored).conf)
    × (start lib false (λ key. true) (some 9) (set_identity lib 7 stored)
        ≡ running (set_identity lib 7 stored))
start-again_example =
    start-again lib false (λ key. true) (λ key. true) (some 7) (some 9) stored
      (set_identity lib 7 stored) lib-IsLawful (λ key. refl) first_start

get_bootstrap_peers_replaced_example :
    get_bootstrap_peers lib own_peers ≡ lib.addr_infos (default_bootstrap_peers lib)
get_bootstrap_peers_replaced_example =
    get_bootstrap_peers_replaced lib names own_peers (text "/own" ∷ []) [] (text "relay") 114
      (λ as' e. ap (λ b. if b then some as' else none) e) refl refl refl
