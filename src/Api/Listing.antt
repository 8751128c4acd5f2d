-- ===== src/Api/Listing.antt =====
-- api/peers.go: what `GetKnownPeers` lists, with the connections of p2p/metrics.go in it.
use gravil.Base.{ℕ, Bool, Option, none, some, List, [], ◌∷◌, Text, Dict, text_key, if◌then◌else◌}
use gravil.Config.{Config, KnownPeer, zero_known_peer}
use gravil.Config.Peers.{is_empty, peer_display_name, get_peer}
use gravil.Release.{version_from_user_agent}
use gravil.P2p.Connections.{ConnectionInfo}

-- What the node knows of a peer: the text of its user agent, its connections, its traffic (`Stats`, of
-- a package) and the latency. `in_units` prints the traffic.
pub record Net (Stats Units : Type 0) : Type 0 where
  pub user_agent : Text → Text
  pub is_connected : Text → Bool
  pub connections : Text → List ConnectionInfo
  pub stats : Text → Stats
  pub in_units : Stats → Units
  pub latency : Text → ℕ

pub record KnownPeersResponse (Stats Units : Type 0) : Type 0 where
  pub peer_id : Text
  pub name : Text
  pub display_name : Text
  pub alias : Text
  pub version : Text
  pub ip_addr : Text
  pub domain_name : Text
  pub connected : Bool
  pub confirmed : Bool
  pub declined : Bool
  pub we_allow_using_as_exit_node : Bool
  pub allowed_using_as_exit_node : Bool
  pub reported_using_peer_id : Text
  pub reported_using_peer_name : Text
  pub last_seen : ℕ
  pub connections : List ConnectionInfo
  pub network_stats : Stats
  pub network_stats_in_iec_units : Units
  pub ping : ℕ

abbrev pub name_or_empty : Option KnownPeer → Text
name_or_empty none = []
name_or_empty (some p) = peer_display_name p

-- The exit node that the peer says it uses, by its name here.
abbrev pub using_name : Config → Text → Text
using_name c id = if is_empty id then [] else name_or_empty (get_peer c id)

abbrev pub found_or_zero : Option KnownPeer → KnownPeer
found_or_zero none = zero_known_peer
found_or_zero (some p) = p

unfoldable pub ids : Dict Text KnownPeer → List Text
ids [] = []
ids ((id, _) ∷ ps) = id ∷ ids ps

module _ {Stats Units : Type 0} (net : Net Stats Units) where
  -- One entry; a peer that is removed after the IDs were read is the zero value.
  unfoldable pub response : Config → Text → KnownPeersResponse Stats Units
  unfolding get_peer peer_display_name version_from_user_agent
  response c id =
      let p = found_or_zero (get_peer c id) in
      record {
        peer_id = id;
        name = peer_display_name p;
        display_name = peer_display_name p;
        alias = p.alias;
        version = version_from_user_agent (net.user_agent p.peer_id);
        ip_addr = p.ip_addr;
        domain_name = p.domain_name;
        connected = net.is_connected p.peer_id;
        confirmed = p.confirmed;
        declined = p.declined;
        we_allow_using_as_exit_node = p.we_allow_using_as_exit_node;
        allowed_using_as_exit_node = p.allowed_using_as_exit_node;
        reported_using_peer_id = p.reported_using_peer_id;
        reported_using_peer_name = using_name c p.reported_using_peer_id;
        last_seen = p.last_seen;
        connections = net.connections p.peer_id;
        network_stats = net.stats p.peer_id;
        network_stats_in_iec_units = net.in_units (net.stats p.peer_id);
        ping = net.latency p.peer_id;
      }

  unfoldable pub responses : Config → List Text → List (KnownPeersResponse Stats Units)
  unfolding response
  responses c [] = []
  responses c (id ∷ rest) = response c id ∷ responses c rest

  -- `getKnownPeers`: `sort_ids` is `sort.Strings`, `sort_stable` is `sort.SliceStable` with the
  -- connected peers first. The IDs are read under one lock, the peers under others, by when the
  -- configuration may be another.
  unfoldable pub get_known_peers :
      (List Text → List Text)
      → (List (KnownPeersResponse Stats Units) → List (KnownPeersResponse Stats Units))
      → Config
      → Config
      → List (KnownPeersResponse Stats Units)
  unfolding responses ids
  get_known_peers sort_ids sort_stable before c =
      sort_stable (responses c (sort_ids (ids before.known_peers)))
