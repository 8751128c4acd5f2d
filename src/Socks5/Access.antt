-- ===== src/Socks5/Access.antt =====
-- service/socks5.go and socks5/server.go: which traffic the exit node carries.
use gravil.Base.{
  ℕ, ◌<◌, ◌≤◌, ◌≡◌, ◌↔◌, ◌⊎◌, inl, inr, refl, sym, subst, Bool, true, false, not, ◌&&◌, Option,
  none, some, [], arith, Text, text_key, Bool-cases,
}
use gravil.Addr.{contains}
use gravil.Config.{Config, Store, KnownPeer}
use gravil.Config.Peers.{is_empty, get_peer}
use gravil.Auth.Exit.{allows, is_empty_iff}
use gravil.Auth.Steady.{IsSteady}
use gravil.Socks5.{
  served, serve_peer, proxy_stream_handler, Proxied, no_proxy_peer, connect_failed, stream_failed,
  auth_failed, piped, Net, pipe, proxy_over, proxy_conn, AddrSpec, new_rule_deny_localhost, ip_to4,
  is_inside, allow,
}

-- The peer is known, and may use this device as exit node.
abbrev pub may_use : Option KnownPeer → Bool
may_use none = false
may_use (some p) = p.we_allow_using_as_exit_node

serve_peer_iff :
    (enabled no_auth : Bool) (o : Option KnownPeer)
    → (serve_peer enabled no_auth o ≡ served no_auth) ↔ ((may_use o ≡ true) × (enabled ≡ true))
unfolding serve_peer
serve_peer_iff enabled no_auth none = (λ h. cc, λ h. cc)
serve_peer_iff enabled no_auth (some p) = (λ h. ground (arith, h), λ h. ground (arith, h))

-- A stream is served exactly where its peer is known and was given the right to use this device as
-- exit node, and proxying is enabled.
pub proxy_stream_handler_iff :
    (c : Config) (no_auth : Bool) (id : Text)
    → (proxy_stream_handler c no_auth id ≡ served no_auth)
      ↔ ((may_use (get_peer c id) ≡ true) × (c.socks5.proxying_enabled ≡ true))
unfolding proxy_stream_handler
proxy_stream_handler_iff c no_auth id =
    serve_peer_iff c.socks5.proxying_enabled no_auth (get_peer c id)

-- The end for a peer that lets this device use it: piped to the peer, or the failure that the network
-- or the local client gave cause for.
abbrev pub IsCarried : Net → Text → Proxied → Type 0
IsCarried net id r =
    (r ≡ piped id)
    ⊎ ((r ≡ connect_failed) × (net.connects id ≡ false))
    ⊎ ((r ≡ stream_failed) × (net.new_stream id ≡ none))
    ⊎ ((r ≡ auth_failed) × (net.local_auth ≡ false))

pipe-IsCarried :
    (net : Net) (id : Text) (o : Option Bool)
    → net.new_stream id ≡ o
    → IsCarried net id (pipe net id o)
unfolding pipe
pipe-IsCarried net id none e = inr (inr (inl (refl, e)))
pipe-IsCarried net id (some no_auth) e = elim (Bool-cases (no_auth && not net.local_auth)) [
  | inl refused ↦ rw refused (inr (inr (inr (refl, ground (arith, refused)))))
  | inr fine ↦ rw fine (inl refl)
]

over-IsCarried :
    (net : Net) (id : Text) (o : Option KnownPeer)
    → allows o ≡ true
    → ((p : KnownPeer) → o ≡ some p → p.peer_id ≡ id)
    → IsCarried net id (proxy_over net o)
unfolding proxy_over
over-IsCarried net id none h keyed = cc
over-IsCarried net id (some p) h keyed = elim (Bool-cases (net.connects id)) [
  | inl connects ↦
      let piped_on : proxy_over net (some p) ≡ pipe net id (net.new_stream id) =
        simp (h, keyed p refl, connects) refl in
      subst (IsCarried net id) (sym piped_on) (pipe-IsCarried net id (net.new_stream id) refl)
  | inr apart ↦
      let failed : proxy_over net (some p) ≡ connect_failed = simp (h, keyed p refl, apart) refl in
      inr (inl (failed, apart))
]

-- In a configuration whose exit node is unset or a known peer that allows it, whose entries stand
-- under their own IDs, and in which no two entries with an ID have the same alias: a connection of
-- this device has no exit node only where none is set; else it is piped to the exit node and to no
-- other peer, or the exit node cannot be connected, or no stream to it be opened, or the local client
-- fails the handshake. It is never found that the exit node is not known or does not allow it.
pub proxy_conn-IsCarried :
    (s : Store) (net : Net)
    → IsSteady s
    → ((proxy_conn s.conf net ≡ no_proxy_peer) × (s.conf.socks5.using_peer_id ≡ []))
      ⊎ IsCarried net s.conf.socks5.using_peer_id (proxy_conn s.conf net)
unfolding proxy_conn
proxy_conn-IsCarried s net h = elim (Bool-cases (is_empty s.conf.socks5.using_peer_id)) [
  | inl no_peer ↦ inl (rw no_peer refl, is_empty_iff s.conf.socks5.using_peer_id no_peer)
  | inr chosen ↦ inr (
      rw chosen (
        over-IsCarried net s.conf.socks5.using_peer_id (get_peer s.conf s.conf.socks5.using_peer_id)
          (elim h.exit [ inl e ↦ absurd (ground (arith, e, chosen)) | inr e ↦ e ])
          (h.keyed s.conf.socks5.using_peer_id)))
]

-- The default rule denies exactly the destinations whose address is in 127.0.0.0/8, also where its
-- IPv4 form is wrapped in 16 bytes; every other address of 16 bytes, so the IPv6 loopback, passes.
pub allow-new_rule_deny_localhost :
    (addr : AddrSpec)
    → (allow new_rule_deny_localhost (some addr) ≡ false)
      ↔ ((a : ℕ) × (ip_to4 addr.ip ≡ some a) × (0x7f000000 ≤ a) × (a < 0x80000000))
unfolding allow contains
allow-new_rule_deny_localhost addr = inside (ip_to4 addr.ip)
  where
    inside :
        (o : Option ℕ)
        → (not (is_inside (record { address = 0x7f000001; bits = 8 }) o) ≡ false)
          ↔ ((a : ℕ) × (o ≡ some a) × (0x7f000000 ≤ a) × (a < 0x80000000))
    inside none = (λ h. cc, λ h. cc h.1)
    inside (some a) = (
      λ h. (a, refl, ground (arith, h), ground (arith, h)),
      λ h. let e : a ≡ h.0 = cc h.1 in ground (arith, e, h.2, h.3),
    )
