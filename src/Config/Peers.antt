-- ===== src/Config/Peers.antt =====
-- config/config.go: the methods on known and blocked peers, with what they write and announce.
pub mod Laws
pub mod Effects
pub mod Names
use gravil.Base.{
  ℕ, suc, ◌+◌, Bool, true, false, Option, none, some, List, [], ◌∷◌, Text, Dict, get, put, delete,
  ◌==◌, text_key, if◌then◌else◌, is_some, map,
}
use gravil.Config.{Config, Store, KnownPeer, BlockedPeer, zero_known_peer}

unfoldable pub save : Store → Store
save s = record s { file = some s.conf }

unfoldable pub emit : Store → Store
emit s = record s { emitted = s.emitted + 1 }

unfoldable pub set_known : Dict Text KnownPeer → Store → Store
set_known m s = record s { conf = record s.conf { known_peers = m } }

unfoldable pub set_blocked : Dict Text BlockedPeer → Store → Store
set_blocked m s = record s { conf = record s.conf { blocked_peers = m } }

abbrev pub is_empty : Text → Bool
is_empty [] = true
is_empty (_ ∷ _) = false

-- `KnownPeer.DisplayName`.
unfoldable pub peer_display_name : KnownPeer → Text
peer_display_name p = if is_empty p.alias then p.name else p.alias

unfoldable pub get_peer : Config → Text → Option KnownPeer
get_peer c id = get id c.known_peers

unfoldable pub get_blocked_peer : Config → Text → Option BlockedPeer
get_blocked_peer c id = get id c.blocked_peers

-- The peer with the new state; an unknown peer changes nothing.
unfoldable pub remove_peer : Text → Store → Store × Option KnownPeer
unfolding save emit set_known get_peer
remove_peer id s =
    if is_some (get_peer s.conf id)
    then (emit (save (set_known (delete id s.conf.known_peers) s)), get_peer s.conf id)
    else (s, none)

-- `UpsertPeer` and `UpsertPeerUnlocked`, which differ in the lock.
unfoldable pub upsert_peer : KnownPeer → Store → Store
unfolding save emit set_known
upsert_peer p s = emit (save (set_known (put p.peer_id p s.conf.known_peers) s))

-- Only in memory: neither the file nor a subscriber hears of it.
unfoldable pub touch : ℕ → Text → Store → Option KnownPeer → Store
unfolding set_known
touch now id s none = s
touch now id s (some p) = set_known (put id (record p { last_seen = now }) s.conf.known_peers) s

unfoldable pub update_peer_last_seen : ℕ → Text → Store → Store
unfolding touch get_peer
update_peer_last_seen now id s = touch now id s (get_peer s.conf id)

unfoldable pub remove_blocked_peer : Text → Store → Store
unfolding save set_blocked get_blocked_peer
remove_blocked_peer id s =
    if is_some (get_blocked_peer s.conf id)
    then save (set_blocked (delete id s.conf.blocked_peers) s)
    else s

-- The creation time of an entry that is there stays.
unfoldable pub blocked_since : ℕ → Option BlockedPeer → ℕ
blocked_since now none = now
blocked_since now (some b) = b.created_at

unfoldable pub upsert_blocked_peer : ℕ → Text → Text → Store → Store
unfolding save set_blocked blocked_since get_blocked_peer
upsert_blocked_peer now id name s =
    let b : BlockedPeer = record {
      peer_id = id;
      display_name = name;
      created_at = blocked_since now (get_blocked_peer s.conf id);
    } in
    save (set_blocked (put id b s.conf.blocked_peers) s)

-- `SetListenAddresses` takes the addresses' texts, and does not save.
unfoldable pub set_listen_addresses : List Text → Store → Store
set_listen_addresses addrs s = record s {
  conf = record s.conf { p2p_node = record s.conf.p2p_node { listen_addresses = addrs } };
}

-- The loop of `DNSNamesMapping`: the peer's ID and, where there is one, its domain name.
unfoldable pub dns_names_from : Dict Text Text → Dict Text KnownPeer → Dict Text Text
dns_names_from m [] = m
dns_names_from m ((_, p) ∷ ps) =
    let with_id = put p.peer_id p.ip_addr m in
    dns_names_from (if is_empty p.domain_name then with_id else put p.domain_name p.ip_addr with_id)
      ps

unfoldable pub dns_names_mapping : Config → Dict Text Text
unfolding dns_names_from
dns_names_mapping c = dns_names_from [] c.known_peers
