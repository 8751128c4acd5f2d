-- ===== src/P2p/Connections.antt =====
-- p2p/metrics.go: a connection as the API shows it, and the counts of bootstrap peers. A multiaddress
-- is the list of its parts, as the package multiaddr reads it.
use gravil.Base.{
  ℕ, suc, Bool, true, false, ◌||◌, Option, none, some, List, [], ◌∷◌, ◌++◌, Text, text, eqb,
  if◌then◌else◌, length, is_some,
}

-- A part of an address: its protocol and its value.
pub record Part : Type 0 where
  pub code : ℕ
  pub name : Text
  pub value : Text

abbrev pub p_tcp : ℕ
p_tcp = 6

abbrev pub p_circuit : ℕ
p_circuit = 290

abbrev pub p_p2p : ℕ
p_p2p = 421

abbrev pub p_quic : ℕ
p_quic = 460

abbrev pub p_quic_v1 : ℕ
p_quic_v1 = 461

pub record ConnectionInfo : Type 0 where
  pub multiaddr : Text
  pub through_relay : Bool
  pub relay_peer_id : Text
  pub address : Text
  pub protocol : Text
  pub direction : Text
  pub opened : ℕ
  pub transient : Bool

-- `ValueForProtocol`: the first part of the protocol.
unfoldable pub value_for_protocol : ℕ → List Part → Option Text
value_for_protocol code [] = none
value_for_protocol code (p ∷ ps) =
    if eqb p.code code then some p.value else value_for_protocol code ps

abbrev pub or_blank : Option Text → Text
or_blank none = []
or_blank (some s) = s

unfoldable pub has_colon : Text → Bool
has_colon [] = false
has_colon (c ∷ s) = eqb c 58 || has_colon s

-- `net.JoinHostPort`.
unfoldable pub join_host_port : Text → Text → Text
unfolding has_colon
join_host_port host port =
    if has_colon host then 91 ∷ (host ++ 93 ∷ 58 ∷ port) else host ++ 58 ∷ port

abbrev pub blank_info : Text → ConnectionInfo
blank_info s = record {
  multiaddr = s;
  through_relay = false;
  relay_peer_id = [];
  address = [];
  protocol = [];
  direction = [];
  opened = 0;
  transient = false;
}

-- The address of the first two parts, as host and port.
abbrev pub endpoint : List Part → Part → Part → Text
endpoint addr a b =
    join_host_port (or_blank (value_for_protocol a.code addr))
      (or_blank (value_for_protocol b.code addr))

abbrev pub relayed : Text → List Part → ConnectionInfo × Bool
relayed s addr =
    if is_some (value_for_protocol p_circuit addr)
    then (
      record (blank_info s) {
        through_relay = true;
        relay_peer_id = or_blank (value_for_protocol p_p2p addr);
      },
      true,
    )
    else (blank_info s, false)

-- `parseMultiaddrToInfo`; `s` is the text of the address.
unfoldable pub parse_multiaddr_to_info : Text → List Part → ConnectionInfo × Bool
unfolding value_for_protocol join_host_port
parse_multiaddr_to_info s [] = relayed s []
parse_multiaddr_to_info s (a ∷ []) = relayed s (a ∷ [])
parse_multiaddr_to_info s (a ∷ b ∷ []) =
    let addr = a ∷ b ∷ [] in
    if eqb b.code p_tcp
    then (record (blank_info s) { protocol = b.name; address = endpoint addr a b }, true)
    else relayed s addr
parse_multiaddr_to_info s (a ∷ b ∷ c ∷ []) =
    let addr = a ∷ b ∷ c ∷ [] in
    if eqb c.code p_quic || eqb c.code p_quic_v1
    then (record (blank_info s) { protocol = text "quic"; address = endpoint addr a b }, true)
    else relayed s addr
parse_multiaddr_to_info s (a ∷ b ∷ c ∷ d ∷ rest) = relayed s (a ∷ b ∷ c ∷ d ∷ rest)

-- A connection of libp2p: its remote address with its text, and its statistics, the direction in
-- lower case.
pub record Conn : Type 0 where
  pub remote : List Part
  pub remote_text : Text
  pub direction : Text
  pub opened : ℕ
  pub limited : Bool

-- `PeerConnectionsInfo`: one entry for each connection, also where the address cannot be read.
unfoldable pub peer_connections_info : List Conn → List ConnectionInfo
unfolding parse_multiaddr_to_info
peer_connections_info [] = []
peer_connections_info (c ∷ cs) =
    record (parse_multiaddr_to_info c.remote_text c.remote).0 {
      direction = c.direction;
      opened = c.opened;
      transient = c.limited;
    }
    ∷ peer_connections_info cs

unfoldable pub connected_count : (Text → Bool) → List Text → ℕ
connected_count connected [] = 0
connected_count connected (p ∷ ps) =
    let rest = connected_count connected ps in if connected p then suc rest else rest

-- `BootstrapPeersStats`.
unfoldable pub bootstrap_peers_stats : (Text → Bool) → List Text → ℕ × ℕ
unfolding connected_count
bootstrap_peers_stats connected peers = (length peers, connected_count connected peers)
