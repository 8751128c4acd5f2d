-- ===== src/Node.antt =====
-- config/config.go, config/other.go, p2p/p2p.go and application.go: the identity and the addresses of
-- the node, from the configuration to the host and back.
pub mod Start
pub mod Bootstrap
mod Examples
use gravil.Base.{
  ℕ, Bool, true, false, not, ◌&&◌, Option, none, some, List, [], ◌∷◌, ◌++◌, Text, text, eqb, length,
  if◌then◌else◌,
}
use gravil.Config.{Config, Store, P2pNodeConfig}
use gravil.Config.Peers.{is_empty, save}

-- What the packages base58, crypto, multiaddr and peer give. A `K` is a private key, an `A` an
-- address, an `I` a peer with its addresses. `raw` is empty where the key's `Raw` has an error;
-- `addr_infos` is `AddrInfosFromP2pAddrs`.
pub record Packages (K A I : Type 0) : Type 0 where
  pub encode : List ℕ → Text
  pub decode : Text → Option (List ℕ)
  pub raw : K → List ℕ
  pub unmarshal : List ℕ → Option K
  pub id_of : K → Text
  pub new_multiaddr : Text → Option A
  pub addr_infos : List A → Option (List I)

abbrev pub default_addresses : List Text
default_addresses =
    text
      "/dnsaddr/rus-2.bootstrap.anywherelan.com/p2p/12D3KooWGRjpNYgFssihdgTDnr5rdhdh9ruMTbeT41h1fXfGmatZ"
    ∷ text
        "/dnsaddr/ita-1.bootstrap.anywherelan.com/p2p/12D3KooWRXyTH7ZxerZRu6UtYQx62uCmYeZ244SsLQZbjuxX7RrL"
    ∷ text
        "/dnsaddr/cze-1.bootstrap.anywherelan.com/p2p/12D3KooWJDDYCWbLYyCLTH16TFBZoxyDYD1Ypth2rtyznXYpnpza"
    ∷ text
        "/dnsaddr/can-1.bootstrap.anywherelan.com/p2p/12D3KooWQeAvoyVnRm6T5XzWpKD8AzM1buzBL6o95iCodCZVQAsV"
    ∷ text "/ip4/80.211.201.49/tcp/6150/p2p/12D3KooWJDDYCWbLYyCLTH16TFBZoxyDYD1Ypth2rtyznXYpnpza"
    ∷ text
        "/ip4/80.211.201.49/udp/6150/quic-v1/p2p/12D3KooWJDDYCWbLYyCLTH16TFBZoxyDYD1Ypth2rtyznXYpnpza"
    ∷ text "/ip4/167.114.152.120/tcp/6150/p2p/12D3KooWQeAvoyVnRm6T5XzWpKD8AzM1buzBL6o95iCodCZVQAsV"
    ∷ text
        "/ip4/167.114.152.120/udp/6150/quic-v1/p2p/12D3KooWQeAvoyVnRm6T5XzWpKD8AzM1buzBL6o95iCodCZVQAsV"
    ∷ text
        "/ip6/2607:5300:201:3100::6b5f/tcp/7250/p2p/12D3KooWQeAvoyVnRm6T5XzWpKD8AzM1buzBL6o95iCodCZVQAsV"
    ∷ text
        "/ip6/2607:5300:201:3100::6b5f/udp/7250/quic-v1/p2p/12D3KooWQeAvoyVnRm6T5XzWpKD8AzM1buzBL6o95iCodCZVQAsV"
    ∷ text "/ip4/45.67.230.223/tcp/6150/p2p/12D3KooWGRjpNYgFssihdgTDnr5rdhdh9ruMTbeT41h1fXfGmatZ"
    ∷ text
        "/ip4/45.67.230.223/udp/6150/quic-v1/p2p/12D3KooWGRjpNYgFssihdgTDnr5rdhdh9ruMTbeT41h1fXfGmatZ"
    ∷ text "/ip4/222.255.117.203/tcp/6150/p2p/12D3KooWRMFSvGstJEEZYuYq6jgZdByqwT5zpvFRZebZZbfp9XY1"
    ∷ text
        "/ip4/222.255.117.203/udp/6150/quic-v1/p2p/12D3KooWRMFSvGstJEEZYuYq6jgZdByqwT5zpvFRZebZZbfp9XY1"
    ∷ []

-- What `Init` comes to with the host; `failed` is an error.
pub data Started : Type 0 where
  panicked failed : Started
  running : Store → Started

-- A nil pointer counts as false.
abbrev pub is_set : Option Bool → Bool
is_set none = false
is_set (some b) = b

module _ {K A I : Type 0} (lib : Packages K A I) where
  -- An address that cannot be parsed is skipped.
  unfoldable pub with_parsed : Option A → List A → List A
  with_parsed none rest = rest
  with_parsed (some a) rest = a ∷ rest

  unfoldable pub parse_all : List Text → List A
  unfolding with_parsed
  parse_all [] = []
  parse_all (s ∷ ss) = with_parsed (lib.new_multiaddr s) (parse_all ss)

  unfoldable pub get_listen_addresses : Config → List A
  unfolding parse_all
  get_listen_addresses c = parse_all c.p2p_node.listen_addresses

  abbrev pub default_bootstrap_peers : List A
  default_bootstrap_peers = parse_all default_addresses

  unfoldable pub all_multiaddrs : Config → List A
  unfolding parse_all
  all_multiaddrs c =
      let own = parse_all c.p2p_node.bootstrap_peers in
      if not (is_set c.p2p_node.ignore_default_bootstrap_peers)
      then own ++ default_bootstrap_peers
      else own

  -- Where the addresses are refused, those of the defaults; `none` is a panic.
  unfoldable pub or_default_peers : Option (List I) → Option (List I)
  or_default_peers none = lib.addr_infos default_bootstrap_peers
  or_default_peers (some is) = some is

  unfoldable pub get_bootstrap_peers : Config → Option (List I)
  unfolding all_multiaddrs or_default_peers
  get_bootstrap_peers c = or_default_peers (lib.addr_infos (all_multiaddrs c))

  -- `none` is nil: no identity, or one that cannot be decoded.
  unfoldable pub priv_key : Config → Option (List ℕ)
  priv_key c = if is_empty c.p2p_node.identity then none else lib.decode c.p2p_node.identity

  unfoldable pub set_identity : K → Store → Store
  unfolding save
  set_identity key s = save (record s {
    conf = record s.conf {
      p2p_node = record s.conf.p2p_node {
        identity = lib.encode (lib.raw key);
        peer_id = lib.id_of key;
      };
    };
  })

  -- The key of the host: a generated one, which may be refused, where the configuration has none.
  unfoldable pub host_key : Option K → Option (List ℕ) → Option K
  host_key generated none = generated
  host_key generated (some bs) = lib.unmarshal bs

  -- `works` says whether the connection manager and the host can be made.
  unfoldable pub make_host : Bool → (K → Bool) → List I → Option K → Option K
  make_host allow_empty works peers none = none
  make_host allow_empty works peers (some key) =
      if not allow_empty && eqb (length peers) 0 then none else if works key then some key else none

  unfoldable pub init_host : Bool → (K → Bool) → Option K → Option (List ℕ) → List I → Option K
  unfolding host_key make_host
  init_host allow_empty works generated bytes peers =
      make_host allow_empty works peers (host_key generated bytes)

  unfoldable pub identified : Store → Option K → Started
  unfolding set_identity
  identified s none = failed
  identified s (some key) = running (set_identity key s)

  unfoldable pub start_with : Bool → (K → Bool) → Option K → Store → Option (List I) → Started
  unfolding identified init_host
  start_with allow_empty works generated s none = panicked
  start_with allow_empty works generated s (some peers) =
      identified s (init_host allow_empty works generated (priv_key s.conf) peers)

  -- The beginning of `Init`, until the identity is stored. The host's peerstore holds the key that the
  -- host was made with.
  unfoldable pub start : Bool → (K → Bool) → Option K → Store → Started
  unfolding start_with
  start allow_empty works generated s =
      start_with allow_empty works generated s (get_bootstrap_peers s.conf)
