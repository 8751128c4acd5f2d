-- ===== src/Auth/Exit.antt =====
-- service/auth_status.go: the exit node. The peer in use as SOCKS5 exit is always one that allows it.
use gravil.Base.{
  ◌≡◌, ◌⊎◌, inl, inr, refl, ap, Bool, true, false, Option, none, some, [], ◌∷◌, arith, Text, get,
  text_key, text_eq_iff, get-put, Bool-cases,
}
use gravil.Config.{Store, KnownPeer}
use gravil.Config.Peers.{is_empty, get_peer, upsert_peer, save, emit, set_known}
use gravil.Protocol.{PeerStatusInfo}
use gravil.Auth.{Env, set_using, accepted, choose_exit, leave_exit, process_peer_status_info}

abbrev pub allows : Option KnownPeer → Bool
allows none = false
allows (some p) = p.allowed_using_as_exit_node

-- No exit node, or a known peer that allows it.
abbrev pub IsExit : Store → Type 0
IsExit s =
    (s.conf.socks5.using_peer_id ≡ [])
    ⊎ (allows (get_peer s.conf s.conf.socks5.using_peer_id) ≡ true)

pub is_empty_iff : (s : Text) → is_empty s ≡ true → s ≡ []
is_empty_iff [] h = refl
is_empty_iff (c ∷ s) h = cc

-- The exit node is right, or is this very peer.
abbrev AlmostExit : Text → Store → Type 0
AlmostExit id s = IsExit s ⊎ (s.conf.socks5.using_peer_id ≡ id)

upsert-AlmostExit : (p : KnownPeer) (s : Store) → IsExit s → AlmostExit p.peer_id (upsert_peer p s)
unfolding upsert_peer save emit set_known get_peer
upsert-AlmostExit p s h = ground (
  arith,
  h,
  get-put p.peer_id s.conf.socks5.using_peer_id p s.conf.known_peers,
  text_eq_iff p.peer_id s.conf.socks5.using_peer_id,
)

leave_exit-IsExit : (id : Text) (s : Store) → AlmostExit id s → IsExit (leave_exit id s)
unfolding leave_exit set_using
leave_exit-IsExit id s h = ground (arith, h, text_eq_iff s.conf.socks5.using_peer_id id)

choose_exit-IsExit :
    (id : Text) (allowed : Bool) (s : Store)
    → AlmostExit id s
    → allows (get_peer s.conf id) ≡ allowed
    → IsExit (choose_exit id allowed s)
unfolding choose_exit set_using get_peer
choose_exit-IsExit id allowed s h e = ground (
  arith,
  h,
  text_eq_iff s.conf.socks5.using_peer_id id,
  is_empty_iff s.conf.socks5.using_peer_id,
  ap (λ k. allows (get k s.conf.known_peers)) {x = s.conf.socks5.using_peer_id} {y = id},
)

upserted : (p : KnownPeer) (s : Store) → get_peer (upsert_peer p s).conf p.peer_id ≡ some p
unfolding upsert_peer save emit set_known get_peer
upserted p s =
    ground
      (arith, get-put p.peer_id p.peer_id p s.conf.known_peers, text_eq_iff p.peer_id p.peer_id)

-- Whatever a peer reports of itself, the exit node in use afterwards is empty or a known peer that
-- allows to be used as one, if it was so before.
pub process_peer_status_info-IsExit :
    (env : Env) (p : KnownPeer) (info : PeerStatusInfo) (s : Store)
    → IsExit s
    → IsExit (process_peer_status_info env p info s)
unfolding process_peer_status_info accepted
process_peer_status_info-IsExit env p info s h = elim (Bool-cases info.declined) [
  | inl declined ↦ rw declined (
      leave_exit-IsExit p.peer_id _
        (upsert-AlmostExit (record p { last_seen = env.now; declined = true }) s h))
  | inr reports ↦
      let q = accepted env s.conf p info in
      rw reports (
        choose_exit-IsExit p.peer_id info.allow_using_as_exit_node (upsert_peer q s)
          (upsert-AlmostExit q s h) (ap allows (upserted q s)))
]
