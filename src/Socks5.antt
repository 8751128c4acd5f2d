-- ===== src/Socks5.antt =====
-- service/socks5.go and socks5/: who may use this device as exit node, over which peer its own
-- traffic leaves, and the messages of SOCKS5 (RFC 1928) that the program writes itself. The server
-- behind an accepted stream is the package haxii/socks5.
pub mod Access
mod Carry
mod Replies
mod Examples
use gravil.Base.{
  ℕ, zero, suc, ◌+◌, ◌*◌, ◌/◌, ◌%◌, ◌^◌, Bool, true, false, not, ◌&&◌, ◌||◌, Option, none, some,
  List, [], ◌∷◌, ◌++◌, Text, eqb, if◌then◌else◌, length,
}
use gravil.Addr.{Ip, v4, v6, to4, Network, contains}
use gravil.Config.{Config, KnownPeer}
use gravil.Config.Peers.{is_empty, get_peer}
use gravil.Protocol.Reader.{Stream, Full, ok, eof, unexpected_eof, failed, read_full}

-- What a stream of a remote peer meets: `disabled` tells whether a failure is replied (only after a
-- handshake), `served` whether there is no handshake.
pub data Served : Type 0 where
  unknown denied : Served
  disabled served : Bool → Served

unfoldable pub serve_peer : Bool → Bool → Option KnownPeer → Served
serve_peer enabled no_auth none = unknown
serve_peer enabled no_auth (some p) =
    if not p.we_allow_using_as_exit_node
    then denied
    else if not enabled
    then disabled (not no_auth)
    else served no_auth

-- `ProxyStreamHandler`; `no_auth` tells whether the stream speaks the protocol without handshake.
unfoldable pub proxy_stream_handler : Config → Bool → Text → Served
unfolding serve_peer
proxy_stream_handler c no_auth id = serve_peer c.socks5.proxying_enabled no_auth (get_peer c id)

-- The end of `proxyConn`: the connection was piped to a peer, or what failed.
pub data Proxied : Type 0 where
  no_proxy_peer peer_not_allowed connect_failed stream_failed auth_failed : Proxied
  piped : Text → Proxied

-- The network: whether a peer can be connected, the stream to it (does it speak the protocol
-- without handshake?), and whether the handshake with the local client succeeds.
pub record Net : Type 0 where
  pub connects : Text → Bool
  pub new_stream : Text → Option Bool
  pub local_auth : Bool

unfoldable pub pipe : Net → Text → Option Bool → Proxied
pipe net id none = stream_failed
pipe net id (some no_auth) = if no_auth && not net.local_auth then auth_failed else piped id

unfoldable pub proxy_over : Net → Option KnownPeer → Proxied
unfolding pipe
proxy_over net none = peer_not_allowed
proxy_over net (some p) =
    if not p.allowed_using_as_exit_node
    then peer_not_allowed
    else if net.connects p.peer_id
    then pipe net p.peer_id (net.new_stream p.peer_id)
    else connect_failed

-- `proxyConn`.
unfoldable pub proxy_conn : Config → Net → Proxied
unfolding proxy_over
proxy_conn c net =
    if is_empty c.socks5.using_peer_id
    then no_proxy_peer
    else proxy_over net (get_peer c c.socks5.using_peer_id)

abbrev pub version : ℕ
version = 5

abbrev pub auth_method_no_auth : ℕ
auth_method_no_auth = 0

abbrev pub auth_method_no_acceptable : ℕ
auth_method_no_acceptable = 255

unfoldable pub offers : ℕ → List ℕ → Bool
offers method [] = false
offers method (m ∷ methods) = eqb m method || offers method methods

-- `HandleLocalAuth`: the version byte and the methods as they are read (`none` where reading fails);
-- what is written, and whether it succeeds.
unfoldable pub answer_methods : Option (List ℕ) → List ℕ × Bool
unfolding offers
answer_methods none = ([], false)
answer_methods (some methods) =
    if offers auth_method_no_auth methods
    then (version ∷ auth_method_no_auth ∷ [], true)
    else (version ∷ auth_method_no_acceptable ∷ [], false)

unfoldable pub handle_local_auth : Option ℕ → Option (List ℕ) → List ℕ × Bool
unfolding answer_methods
handle_local_auth none methods = ([], false)
handle_local_auth (some v) methods = if eqb v version then answer_methods methods else ([], false)

-- An address of a request or a reply.
pub record AddrSpec : Type 0 where
  pub fqdn : List ℕ
  pub ip : Option Ip
  pub port : ℕ

abbrev pub address_ipv4 : ℕ
address_ipv4 = 1

abbrev pub address_domain_name : ℕ
address_domain_name = 3

abbrev pub address_ipv6 : ℕ
address_ipv6 = 4

abbrev pub reply_server_failure : ℕ
reply_server_failure = 1

-- The `k` lowest bytes of a number, most significant first.
unfoldable pub big_endian : ℕ → ℕ → List ℕ
big_endian zero a = []
big_endian (suc k) a = big_endian k (a / 256) ++ a % 256 ∷ []

-- The message: version, reply, a reserved byte, the type and the body of the address, the port.
unfoldable pub message : ℕ → ℕ → List ℕ → ℕ → List ℕ
message resp kind body port =
    (version ∷ resp ∷ 0 ∷ kind ∷ body) ++ port / 2 ^ 8 % 2 ^ 8 ∷ port % 2 ^ 8 ∷ []

unfoldable pub ip_reply : ℕ → ℕ → Ip → Option ℕ → List ℕ
unfolding message big_endian
ip_reply resp port ip (some a) = message resp address_ipv4 (big_endian 4 a) port
ip_reply resp port (v4 a) none = message resp address_ipv4 (big_endian 4 a) port
ip_reply resp port (v6 a) none = message resp address_ipv6 (big_endian 16 a) port

unfoldable pub addr_reply : ℕ → List ℕ → Option Ip → ℕ → Option (List ℕ)
unfolding ip_reply
addr_reply resp (c ∷ s) ip port =
    some (message resp address_domain_name (length (c ∷ s) % 2 ^ 8 ∷ c ∷ s) (port % 2 ^ 16))
addr_reply resp [] none port = none
addr_reply resp [] (some ip) port = some (ip_reply resp (port % 2 ^ 16) ip (to4 ip))

-- `sendReply`; `none` where the address cannot be formatted.
unfoldable pub send_reply : ℕ → Option AddrSpec → Option (List ℕ)
unfolding addr_reply
send_reply resp none = some (message resp address_ipv4 (0 ∷ 0 ∷ 0 ∷ 0 ∷ []) 0)
send_reply resp (some addr) = addr_reply resp addr.fqdn addr.ip addr.port

-- `SendServerFailureReply`, by the steps at which it can stop: what is written, and whether it
-- succeeds. `new_request` is `socks5.NewRequest`: does it read a request?
unfoldable pub fail_request : Bool → List ℕ × Bool
unfolding send_reply message
fail_request false = (version ∷ auth_method_no_auth ∷ [], false)
fail_request true = fail_with (send_reply reply_server_failure none)
  where
    fail_with : Option (List ℕ) → List ℕ × Bool
    fail_with none = (version ∷ auth_method_no_auth ∷ [], false)
    fail_with (some reply) = ((version ∷ auth_method_no_auth ∷ []) ++ reply, true)

unfoldable pub fail_methods : (Stream → Bool) → Full × Stream → List ℕ × Bool
unfolding fail_request
fail_methods new_request (ok methods, rest) = fail_request (new_request rest)
fail_methods new_request (eof, rest) = ([], false)
fail_methods new_request (unexpected_eof, rest) = ([], false)
fail_methods new_request (failed, rest) = ([], false)

unfoldable pub fail_header : (Stream → Bool) → Full × Stream → List ℕ × Bool
unfolding fail_methods
fail_header new_request (ok (v ∷ n ∷ _), rest) = fail_methods new_request (read_full n [] rest)
fail_header new_request (ok (v ∷ []), rest) = ([], false)
fail_header new_request (ok [], rest) = ([], false)
fail_header new_request (eof, rest) = ([], false)
fail_header new_request (unexpected_eof, rest) = ([], false)
fail_header new_request (failed, rest) = ([], false)

unfoldable pub send_server_failure_reply : (Stream → Bool) → Stream → List ℕ × Bool
unfolding fail_header
send_server_failure_reply new_request s = fail_header new_request (read_full 2 [] s)

-- The rules for destinations.
pub data Rule : Type 0 where
  permit_all : Rule
  deny_localhost : Network → Rule

-- `NewRuleDenyLocalhost`: 127.0.0.1/8.
abbrev pub new_rule_deny_localhost : Rule
new_rule_deny_localhost = deny_localhost (record { address = 0x7f000001; bits = 8 })

abbrev pub is_inside : Network → Option ℕ → Bool
is_inside n none = false
is_inside n (some a) = contains n a

abbrev pub ip_to4 : Option Ip → Option ℕ
ip_to4 none = none
ip_to4 (some ip) = to4 ip

-- `Allow`, for the destination of a request (a name that is not resolved has no address). An address
-- of 16 bytes that is no IPv4 one is in no IPv4 network.
unfoldable pub allow : Rule → Option AddrSpec → Bool
allow permit_all addr = true
allow (deny_localhost n) none = true
allow (deny_localhost n) (some addr) = not (is_inside n (ip_to4 addr.ip))

-- `SetProxyingLocalhostEnabled`.
unfoldable pub set_proxying_localhost_enabled : Bool → Rule
set_proxying_localhost_enabled enabled = if enabled then permit_all else new_rule_deny_localhost
