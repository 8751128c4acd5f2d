-- ===== src/Dns.antt =====
-- awldns/awldns.go: the resolver's tables and the handlers of its three zones. A handler returns the
-- message that it writes, without the question, or passes the request on to the upstream server.
pub mod Names
mod Answers
mod Reverse
mod Examples
use gravil.Base.{
  ℕ, ◌+◌, ◌*◌, ◌/◌, ◌%◌, ◌^◌, Bool, true, false, not, ◌&&◌, ◌||◌, Option, none, some, List, [], ◌∷◌,
  ◌++◌, Text, text, Dict, get, put, ltb, eqb, ◌==◌, text_key, if◌then◌else◌, is_some, max,
}
use gravil.Addr.{parse_ip4, show_ip}

-- What is used of the packages dns, strings and net: `CanonicalName`, `ToLower`, and the texts of
-- IPv6 addresses.
pub record Packages : Type 0 where
  pub canonical_name : Text → Text
  pub to_lower : Text → Text
  pub ipv6 : Text → Option ℕ

abbrev pub default_ttl_seconds : ℕ
default_ttl_seconds = 60

abbrev pub ptr_v4_suffix : Text
ptr_v4_suffix = text ".in-addr.arpa."

pub record Mappings : Type 0 where
  pub upstream_dns : Text
  pub direct_mapping : Dict Text Text
  pub reverse_mapping : Dict Text Text

-- `len` of a string: its bytes in UTF-8.
abbrev pub rune_len : ℕ → ℕ
rune_len c = if ltb c 0x80 then 1 else if ltb c 0x800 then 2 else if ltb c 0x10000 then 3 else 4

unfoldable pub byte_len : Text → ℕ
byte_len [] = 0
byte_len (c ∷ s) = rune_len c + byte_len s

abbrev pub local_name : Packages → Text → Text
local_name ns key = ns.canonical_name (key ++ text ".awl")

-- The shorter of two names for one address stays.
unfoldable pub shorter : Text → Text → Option Text → Dict Text Text → Dict Text Text
shorter name ip none m = put ip name m
shorter name ip (some existed) m =
    if ltb (byte_len name) (byte_len existed) then put ip name m else m

-- The loop of `ReceiveConfiguration`.
unfoldable pub receive : Packages → Mappings → Dict Text Text → Mappings
unfolding shorter
receive ns c [] = c
receive ns c ((key, ip) ∷ names) =
    let name = local_name ns key in
    receive ns
      (record c {
        direct_mapping = put name ip c.direct_mapping;
        reverse_mapping = shorter name ip (get ip c.reverse_mapping) c.reverse_mapping;
      })
      names

unfoldable pub receive_configuration : Packages → Text → Dict Text Text → Mappings
unfolding receive
receive_configuration ns upstream names =
    receive ns (record { upstream_dns = upstream; direct_mapping = []; reverse_mapping = [] }) names

pub record Question : Type 0 where
  pub name : Text
  pub qtype : ℕ

abbrev pub type_a : ℕ
type_a = 1

abbrev pub type_ptr : ℕ
type_ptr = 12

abbrev pub type_aaaa : ℕ
type_aaaa = 28

abbrev pub type_any : ℕ
type_any = 255

-- The records that the resolver makes itself, of class IN; an A record may have no address.
pub data Rr : Type 0 where
  a_record : Text → ℕ → Option ℕ → Rr
  ptr_record : Text → ℕ → Text → Rr

abbrev pub rcode_success : ℕ
rcode_success = 0

abbrev pub rcode_server_failure : ℕ
rcode_server_failure = 2

abbrev pub rcode_name_error : ℕ
rcode_name_error = 3

pub record Msg : Type 0 where
  pub rcode : ℕ
  pub answer : List Rr
  pub authoritative : Bool
  pub recursion_available : Bool

-- `SetReply` on a new message.
abbrev pub set_reply : Msg
set_reply = record {
  rcode = rcode_success;
  answer = [];
  authoritative = false;
  recursion_available = false;
}

abbrev pub address_of : Packages → Option Text → Option ℕ
address_of ns none = none
address_of ns (some ip) = parse_ip4 ns.ipv6 ip

abbrev pub is_address_type : ℕ → Bool
is_address_type t = eqb t type_a || eqb t type_aaaa || eqb t type_any

-- One question: `found` is what the mapping has for its name in lower case.
unfoldable pub answer_one : Packages → Question → Option Text → Msg → Msg
answer_one ns q found m =
    if is_address_type q.qtype
    then record m {
      rcode = if is_some found then m.rcode else rcode_name_error;
      answer = m.answer ++ a_record q.name default_ttl_seconds (address_of ns found) ∷ [];
    }
    else m

unfoldable pub answer_all : Packages → Mappings → List Question → Msg → Msg
unfolding answer_one
answer_all ns c [] m = m
answer_all ns c (q ∷ qs) m =
    answer_all ns c qs (answer_one ns q (get (ns.to_lower q.name) c.direct_mapping) m)

-- The connection: whether it is TCP, and the size that an EDNS0 option of the request gives.
pub record Link : Type 0 where
  pub is_tcp : Bool
  pub edns_size : Option ℕ

abbrev pub min_msg_size : ℕ
min_msg_size = 512

abbrev pub max_msg_size : ℕ
max_msg_size = 65535

unfoldable pub max_size : Link → Option ℕ → ℕ
max_size l none = if l.is_tcp then max_msg_size else min_msg_size
max_size l (some size) =
    if l.is_tcp then max_msg_size else if ltb min_msg_size size then size else min_msg_size

-- `processOwnResponse`; `truncate` is `Msg.Truncate` of the package dns.
unfoldable pub process_own_response : (ℕ → Msg → Msg) → Link → Msg → Msg
unfolding max_size
process_own_response truncate l m = record (truncate (max_size l l.edns_size) m) {
  authoritative = true;
  recursion_available = true;
}

-- Nothing is written where the request has no question.
unfoldable pub dns_local_domain_handler :
    Packages → (ℕ → Msg → Msg) → Mappings → Link → List Question → Option Msg
unfolding answer_all process_own_response
dns_local_domain_handler ns truncate c l [] = none
dns_local_domain_handler ns truncate c l (q ∷ qs) =
    some (process_own_response truncate l (answer_all ns c (q ∷ qs) set_reply))

-- `strings.TrimSuffix`.
unfoldable pub trim_suffix : Text → Text → Text
trim_suffix suffix [] = []
trim_suffix suffix (c ∷ s) = if (c ∷ s) == suffix then [] else c ∷ trim_suffix suffix s

-- `net.IP{revIp[3], revIp[2], revIp[1], revIp[0]}`.
abbrev pub reversed : ℕ → ℕ
reversed a =
    a % 2 ^ 8 * 2 ^ 24
    + a / 2 ^ 8 % 2 ^ 8 * 2 ^ 16
    + a / 2 ^ 16 % 2 ^ 8 * 2 ^ 8
    + a / 2 ^ 24 % 2 ^ 8

abbrev pub reversed_ip : Option ℕ → Option ℕ
reversed_ip none = none
reversed_ip (some a) = some (reversed a)

unfoldable pub ptr_v4_name_to_ip : Packages → Text → Option ℕ
unfolding trim_suffix
ptr_v4_name_to_ip ns name = reversed_ip (parse_ip4 ns.ipv6 (trim_suffix ptr_v4_suffix name))

-- A message of its own, or the request passed on to `dnsProxyHandler`.
pub data Reply : Type 0 where
  own : Msg → Reply
  proxied : Reply

unfoldable pub ptr_mapped : (ℕ → Msg → Msg) → Link → Text → Option Text → Reply
unfolding process_own_response
ptr_mapped truncate l name none = proxied
ptr_mapped truncate l name (some mapped) = own (
    process_own_response truncate l
      (record set_reply { answer = ptr_record name default_ttl_seconds mapped ∷ [] }))

unfoldable pub ptr_of : (ℕ → Msg → Msg) → Mappings → Link → Text → Option ℕ → Reply
unfolding ptr_mapped
ptr_of truncate c l name none = proxied
ptr_of truncate c l name (some ip) = ptr_mapped truncate l name (get (show_ip ip) c.reverse_mapping)

unfoldable pub ptrv4_handler : Packages → (ℕ → Msg → Msg) → Mappings → Link → List Question → Reply
unfolding ptr_of ptr_v4_name_to_ip
ptrv4_handler ns truncate c l [] = proxied
ptrv4_handler ns truncate c l (q ∷ qs) =
    if not (eqb q.qtype type_ptr)
    then proxied
    else ptr_of truncate c l q.name (ptr_v4_name_to_ip ns q.name)

-- `dnsProxyHandler`: the answer of the upstream server, or a failure of its own.
unfoldable pub dns_proxy_handler : Option Msg → Msg
dns_proxy_handler none = record set_reply { rcode = rcode_server_failure }
dns_proxy_handler (some m) = m
