-- ===== src/Config/Peers/Laws.antt =====
-- config/config.go: the methods on peers keep the table keyed by peer ID, keep the file up to date,
-- and change no other entry.
use gravil.Base.{
  ℕ, ◌≡◌, refl, sym, ap, ◌∙◌, Option, none, some, arith, Text, get, ◌==◌, text_key, text_eq_iff,
  if◌then◌else◌, get-put, get-delete,
}
use gravil.Config.{Store, KnownPeer}
use gravil.Config.Peers.{
  get_peer, remove_peer, upsert_peer, touch, update_peer_last_seen, remove_blocked_peer,
  upsert_blocked_peer,
}

-- The methods as one type, so that a history is a list.
pub data Call : Type 0 where
  remove upsert_seen remove_block : Text → Call
  upsert : KnownPeer → Call
  block : Text → Text → Call

abbrev pub call : ℕ → Call → Store → Store
call now (remove id) s = (remove_peer id s).0
call now (upsert_seen id) s = update_peer_last_seen now id s
call now (remove_block id) s = remove_blocked_peer id s
call now (upsert p) s = upsert_peer p s
call now (block id name) s = upsert_blocked_peer now id name s

abbrev pub seen_at : ℕ → Option KnownPeer → Option KnownPeer
seen_at now none = none
seen_at now (some p) = some (record p { last_seen = now })

-- What `GetPeer` returns after a method, by the method.
abbrev pub view : ℕ → Call → Store → Text → Option KnownPeer
view now (remove id) s j = if id == j then none else get_peer s.conf j
view now (upsert_seen id) s j =
    if id == j then seen_at now (get_peer s.conf j) else get_peer s.conf j
view now (remove_block id) s j = get_peer s.conf j
view now (upsert p) s j = if p.peer_id == j then some p else get_peer s.conf j
view now (block id name) s j = get_peer s.conf j

-- After each method, `GetPeer` returns for every ID what the method's specification says: its own
-- entry is changed as described, every other stays.
pub get_peer-call :
    (now : ℕ) (c : Call) (s : Store) (j : Text) → get_peer (call now c s).conf j ≡ view now c s j
unfolding remove_peer upsert_peer update_peer_last_seen remove_blocked_peer upsert_blocked_peer
get_peer-call now (remove id) s j = ground (
  arith,
  get-delete id j s.conf.known_peers,
  text_eq_iff id j,
  ap (λ k. get k s.conf.known_peers) {x = id} {y = j},
)
get_peer-call now (upsert_seen id) s j = touched (get_peer s.conf id) refl
  where
    touched :
        (o : Option KnownPeer)
        → get_peer s.conf id ≡ o
        → get_peer (touch now id s o).conf j
          ≡ (if id == j then seen_at now (get_peer s.conf j) else get_peer s.conf j)
    touched none e =
        ground (arith, text_eq_iff id j, e, ap (λ k. get k s.conf.known_peers) {x = id} {y = j})
    touched (some q) e = ground (
      arith,
      text_eq_iff id j,
      e,
      ap (λ k. get k s.conf.known_peers) {x = id} {y = j},
      get-put id j (record q { last_seen = now }) s.conf.known_peers,
    )
get_peer-call now (remove_block id) s j = ground arith
get_peer-call now (upsert p) s j = ground (arith, get-put p.peer_id j p s.conf.known_peers)
get_peer-call now (block id name) s j = refl

abbrev pub IsKeyed : Store → Type 0
IsKeyed s = (k : Text) (p : KnownPeer) → get_peer s.conf k ≡ some p → p.peer_id ≡ k

-- Every method keeps each entry under its own peer ID.
pub call-IsKeyed : (now : ℕ) (c : Call) (s : Store) → IsKeyed s → IsKeyed (call now c s)
call-IsKeyed now (remove id) s h k p e = ground (arith, h k p, get_peer-call now (remove id) s k)
call-IsKeyed now (upsert_seen id) s h k p e = kept (get_peer s.conf k) refl
  where
    kept : (o : Option KnownPeer) → get_peer s.conf k ≡ o → p.peer_id ≡ k
    kept none q = ground (arith, get_peer-call now (upsert_seen id) s k)
    kept (some r) q = ground (arith, h k r q, get_peer-call now (upsert_seen id) s k)
call-IsKeyed now (remove_block id) s h k p e =
    h k p (sym (get_peer-call now (remove_block id) s k) ∙ e)
call-IsKeyed now (upsert q) s h k p e =
    ground (arith, h k p, get_peer-call now (upsert q) s k, text_eq_iff q.peer_id k)
call-IsKeyed now (block id name) s h k p e = h k p (sym (get_peer-call now (block id name) s k) ∙ e)
