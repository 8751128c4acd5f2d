-- ===== src/Config/Peers/Effects.antt =====
-- config/config.go: what the methods on peers write to the file and announce on the event bus, and
-- the table of blocked peers.
use gravil.Base.{
  ℕ, ◌+◌, ◌≡◌, refl, ap, Bool, true, false, Option, none, some, arith, Text, get, ◌==◌, text_key,
  text_eq_iff, if◌then◌else◌, is_some, get-put, get-delete,
}
use gravil.Config.{Store, KnownPeer, BlockedPeer}
use gravil.Config.Peers.{
  get_peer, get_blocked_peer, remove_peer, upsert_peer, touch, update_peer_last_seen,
  remove_blocked_peer, blocked_since, upsert_blocked_peer,
}
use gravil.Config.Peers.Laws.{Call, remove, upsert_seen, remove_block, upsert, block, call}

abbrev pub IsSaved : Store → Type 0
IsSaved s = s.file ≡ some s.conf

-- Does a call only note when a peer was last seen?
abbrev pub is_seen : Call → Bool
is_seen (upsert_seen id) = true
is_seen (remove id) = false
is_seen (remove_block id) = false
is_seen (upsert p) = false
is_seen (block id name) = false

-- Every method but the one that notes the time of a connection leaves the file equal to the
-- configuration in memory.
pub call-IsSaved :
    (now : ℕ) (c : Call) (s : Store) → is_seen c ≡ false → IsSaved s → IsSaved (call now c s)
unfolding remove_peer upsert_peer remove_blocked_peer upsert_blocked_peer
call-IsSaved now (remove id) s h v = ground arith
call-IsSaved now (upsert_seen id) s h v = cc
call-IsSaved now (remove_block id) s h v = ground arith
call-IsSaved now (upsert p) s h v = refl
call-IsSaved now (block id name) s h v = refl

-- How often a call announces a change of the known peers.
abbrev pub announced : Call → Store → ℕ
announced (remove id) s = if is_some (get_peer s.conf id) then 1 else 0
announced (upsert_seen id) s = 0
announced (remove_block id) s = 0
announced (upsert p) s = 1
announced (block id name) s = 0

-- A change of the known peers is announced exactly once, by `UpsertPeer` and by a `RemovePeer` that
-- found its peer; the other methods announce nothing.
pub emitted-call :
    (now : ℕ) (c : Call) (s : Store) → (call now c s).emitted ≡ s.emitted + announced c s
unfolding remove_peer upsert_peer remove_blocked_peer upsert_blocked_peer update_peer_last_seen
emitted-call now (remove id) s = ground arith
emitted-call now (upsert_seen id) s = quiet (get_peer s.conf id)
  where
    quiet : (o : Option KnownPeer) → (touch now id s o).emitted ≡ s.emitted + 0
    quiet none = omega arith
    quiet (some p) = omega arith
emitted-call now (remove_block id) s = ground arith
emitted-call now (upsert p) s = refl
emitted-call now (block id name) s = omega arith

-- What `GetBlockedPeer` returns after a call.
abbrev pub blocked_view : ℕ → Call → Store → Text → Option BlockedPeer
blocked_view now (remove id) s j = get_blocked_peer s.conf j
blocked_view now (upsert_seen id) s j = get_blocked_peer s.conf j
blocked_view now (remove_block id) s j = if id == j then none else get_blocked_peer s.conf j
blocked_view now (upsert p) s j = get_blocked_peer s.conf j
blocked_view now (block id name) s j =
    if id == j
    then some (record {
      peer_id = id;
      display_name = name;
      created_at = blocked_since now (get_blocked_peer s.conf id);
    })
    else get_blocked_peer s.conf j

-- Blocking a peer again renames it and keeps the time at which it was first blocked; only the calls
-- on blocked peers change that table.
pub get_blocked_peer-call :
    (now : ℕ) (c : Call) (s : Store) (j : Text)
    → get_blocked_peer (call now c s).conf j ≡ blocked_view now c s j
unfolding remove_peer upsert_peer remove_blocked_peer upsert_blocked_peer update_peer_last_seen
get_blocked_peer-call now (remove id) s j = ground arith
get_blocked_peer-call now (upsert_seen id) s j = quiet (get_peer s.conf id)
  where
    quiet :
        (o : Option KnownPeer)
        → get_blocked_peer (touch now id s o).conf j ≡ get_blocked_peer s.conf j
    quiet none = refl
    quiet (some p) = refl
get_blocked_peer-call now (remove_block id) s j = ground (
  arith,
  get-delete id j s.conf.blocked_peers,
  text_eq_iff id j,
  ap (λ k. get k s.conf.blocked_peers) {x = id} {y = j},
)
get_blocked_peer-call now (upsert p) s j = refl
get_blocked_peer-call now (block id name) s j = get-put id j _ s.conf.blocked_peers
