-- ===== src/Socks5/Replies.antt =====
-- socks5/server.go: the messages that the program writes itself, against RFC 1928.
use native.Mathlib.Nat.{pow-suc}
use gravil.Base.{
  ℕ, zero, suc, ◌+◌, ◌*◌, ◌/◌, ◌%◌, ◌^◌, ◌<◌, ◌≡◌, refl, sym, ap, ◌∙◌, ◌&&◌, Option, none, some,
  List, [], ◌∷◌, ◌++◌, arith, length, take, drop, eqb, if◌then◌else◌, length-append,
  take-append_length, drop-append_length,
}
use gravil.Addr.{Ip, v4, v6, to4}
use gravil.Socks5.{
  address_ipv4, address_domain_name, address_ipv6, big_endian, message, ip_reply, addr_reply,
  send_reply,
}

abbrev pub number : ℕ → List ℕ → ℕ
number acc [] = acc
number acc (b ∷ bs) = number (acc * 256 + b) bs

pub data Dest : Type 0 where
  ip4 ip6 : ℕ → Dest
  domain : List ℕ → Dest

-- A reader of replies, after section 6 of the RFC: the port is the last two bytes, and nothing is left.
abbrev pub end_port : Dest → ℕ → List ℕ → Option (ℕ × Dest × ℕ)
end_port d resp (hi ∷ lo ∷ []) = some (resp, d, hi * 256 + lo)
end_port d resp [] = none
end_port d resp (hi ∷ []) = none
end_port d resp (hi ∷ lo ∷ b ∷ bs) = none

abbrev pub read_name : ℕ → List ℕ → Option (ℕ × Dest × ℕ)
read_name resp [] = none
read_name resp (n ∷ bs) = end_port (domain (take n bs)) resp (drop n bs)

abbrev pub read_addr : ℕ → ℕ → List ℕ → Option (ℕ × Dest × ℕ)
read_addr resp kind bs =
    if eqb kind 1
    then end_port (ip4 (number 0 (take 4 bs))) resp (drop 4 bs)
    else if eqb kind 3
    then read_name resp bs
    else if eqb kind 4
    then end_port (ip6 (number 0 (take 16 bs))) resp (drop 16 bs)
    else none

abbrev pub read_reply : List ℕ → Option (ℕ × Dest × ℕ)
read_reply (v ∷ resp ∷ r ∷ kind ∷ bs) = if eqb v 5 && eqb r 0 then read_addr resp kind bs else none
read_reply [] = none
read_reply (v ∷ []) = none
read_reply (v ∷ resp ∷ []) = none
read_reply (v ∷ resp ∷ r ∷ []) = none

number-snoc : (acc : ℕ) (bs : List ℕ) (b : ℕ) → number acc (bs ++ b ∷ []) ≡ number acc bs * 256 + b
number-snoc acc [] b = refl
number-snoc acc (c ∷ bs) b = number-snoc (acc * 256 + c) bs b

number-big_endian : (k a : ℕ) → a < 256 ^ k → number 0 (big_endian k a) ≡ a
unfolding big_endian
number-big_endian zero a h = omega arith
number-big_endian (suc k) a h =
    number-snoc 0 (big_endian k (a / 256)) (a % 256)
    ∙ ap (λ t. t * 256 + a % 256) (number-big_endian k (a / 256) (omega (arith, h, pow-suc 256 k)))
    ∙ omega arith

length-big_endian : (k a : ℕ) → length (big_endian k a) ≡ k
unfolding big_endian
length-big_endian zero a = refl
length-big_endian (suc k) a =
    omega
      (arith, length-append (big_endian k (a / 256)) (a % 256 ∷ []), length-big_endian k (a / 256))

take_front : (k : ℕ) (bs ys : List ℕ) → length bs ≡ k → take k (bs ++ ys) ≡ bs
take_front k bs ys e = ap (λ n. take n (bs ++ ys)) (sym e) ∙ take-append_length bs ys

drop_front : (k : ℕ) (bs ys : List ℕ) → length bs ≡ k → drop k (bs ++ ys) ≡ ys
drop_front k bs ys e = ap (λ n. drop n (bs ++ ys)) (sym e) ∙ drop-append_length bs ys

-- Where the reply says that the connection ends.
abbrev pub ip_dest : Ip → Option ℕ → Dest
ip_dest ip (some a) = ip4 a
ip_dest (v4 a) none = ip4 a
ip_dest (v6 a) none = ip6 a

abbrev pub dest_of : List ℕ → Ip → Dest
dest_of [] ip = ip_dest ip (to4 ip)
dest_of (c ∷ s) ip = domain (c ∷ s)

abbrev pub IsIp : Ip → Type 0
IsIp (v4 a) = a < 2 ^ 32
IsIp (v6 a) = a < 2 ^ 128

port_bytes :
    (d : Dest) (resp port : ℕ)
    → port < 65536
    → end_port d resp (port % 2 ^ 16 / 2 ^ 8 % 2 ^ 8 ∷ port % 2 ^ 16 % 2 ^ 8 ∷ [])
      ≡ some (resp, d, port)
port_bytes d resp port h = ap (λ p. some (resp, d, p)) (omega arith)

ip4-reads :
    (resp port a : ℕ)
    → port < 65536
    → a < 2 ^ 32
    → read_reply (message resp address_ipv4 (big_endian 4 a) (port % 2 ^ 16))
      ≡ some (resp, ip4 a, port)
unfolding message
ip4-reads resp port a hp ha =
    rw
      (
        take_front 4 (big_endian 4 a) (port % 2 ^ 16 / 2 ^ 8 % 2 ^ 8 ∷ port % 2 ^ 16 % 2 ^ 8 ∷ [])
            (length-big_endian 4 a),
        drop_front 4 (big_endian 4 a) (port % 2 ^ 16 / 2 ^ 8 % 2 ^ 8 ∷ port % 2 ^ 16 % 2 ^ 8 ∷ [])
            (length-big_endian 4 a),
        number-big_endian 4 a (omega arith),
      )
      (port_bytes (ip4 a) resp port hp)

ip6-reads :
    (resp port a : ℕ)
    → port < 65536
    → a < 2 ^ 128
    → read_reply (message resp address_ipv6 (big_endian 16 a) (port % 2 ^ 16))
      ≡ some (resp, ip6 a, port)
unfolding message
ip6-reads resp port a hp ha =
    rw
      (
        take_front 16 (big_endian 16 a) (port % 2 ^ 16 / 2 ^ 8 % 2 ^ 8 ∷ port % 2 ^ 16 % 2 ^ 8 ∷ [])
            (length-big_endian 16 a),
        drop_front 16 (big_endian 16 a) (port % 2 ^ 16 / 2 ^ 8 % 2 ^ 8 ∷ port % 2 ^ 16 % 2 ^ 8 ∷ [])
            (length-big_endian 16 a),
        number-big_endian 16 a (omega arith),
      )
      (port_bytes (ip6 a) resp port hp)

domain-reads :
    (resp port : ℕ) (name : List ℕ)
    → port < 65536
    → length name < 256
    → read_reply (message resp address_domain_name (length name % 2 ^ 8 ∷ name) (port % 2 ^ 16))
      ≡ some (resp, domain name, port)
unfolding message
domain-reads resp port name hp hn =
    let small : length name % 2 ^ 8 ≡ length name = omega arith in
    rw
      (
        small,
        take_front (length name) name (port % 2 ^ 16 / 2 ^ 8 % 2 ^ 8 ∷ port % 2 ^ 16 % 2 ^ 8 ∷ [])
            refl,
        drop_front (length name) name (port % 2 ^ 16 / 2 ^ 8 % 2 ^ 8 ∷ port % 2 ^ 16 % 2 ^ 8 ∷ [])
            refl,
      )
      (port_bytes (domain name) resp port hp)

to4-small : (ip : Ip) (a : ℕ) → IsIp ip → to4 ip ≡ some a → a < 2 ^ 32
unfolding to4
to4-small (v4 b) a h e = ground (arith, e, h)
to4-small (v6 b) a h e = ground (arith, e)

ip_reply-reads :
    (resp port : ℕ) (ip : Ip) (o : Option ℕ)
    → to4 ip ≡ o
    → port < 65536
    → IsIp ip
    → read_reply (ip_reply resp (port % 2 ^ 16) ip o) ≡ some (resp, ip_dest ip o, port)
unfolding ip_reply
ip_reply-reads resp port ip (some a) e hp hi = ip4-reads resp port a hp (to4-small ip a hi e)
ip_reply-reads resp port (v4 a) none e hp hi = ip4-reads resp port a hp hi
ip_reply-reads resp port (v6 a) none e hp hi = ip6-reads resp port a hp hi

-- The reply that `sendReply` writes for a name of up to 255 bytes, or else an address, and a port of
-- 16 bits reads back, after RFC 1928, as that reply, destination and port; an address of 16 bytes
-- that stands for one of IPv4 as the latter. With no address it is the reply to 0.0.0.0, port 0.
pub read_reply-send_reply :
    (resp port : ℕ) (name : List ℕ) (ip : Ip)
    → port < 65536
    → length name < 256
    → IsIp ip
    → ((bs : List ℕ) × (send_reply resp (some (record { fqdn = name; ip = some ip; port = port }))
          ≡ some bs)
        × (read_reply bs ≡ some (resp, dest_of name ip, port)))
      × ((bs : List ℕ) × (send_reply resp none ≡ some bs) × (read_reply bs ≡ some (resp, ip4 0, 0)))
unfolding send_reply addr_reply
read_reply-send_reply resp port [] ip hp hn hi = (
  (
    ip_reply resp (port % 2 ^ 16) ip (to4 ip),
    refl,
    ip_reply-reads resp port ip (to4 ip) refl hp hi,
  ),
  (message resp address_ipv4 (0 ∷ 0 ∷ 0 ∷ 0 ∷ []) 0, refl, unfold message in refl),
)
read_reply-send_reply resp port (c ∷ s) ip hp hn hi = (
  (
    message resp address_domain_name (length (c ∷ s) % 2 ^ 8 ∷ c ∷ s) (port % 2 ^ 16),
    refl,
    domain-reads resp port (c ∷ s) hp hn,
  ),
  (message resp address_ipv4 (0 ∷ 0 ∷ 0 ∷ 0 ∷ []) 0, refl, unfold message in refl),
)
