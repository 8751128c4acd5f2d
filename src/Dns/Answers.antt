-- ===== src/Dns/Answers.antt =====
-- awldns/awldns.go: what `dnsLocalDomainHandler` answers.
use gravil.Base.{
  ℕ, ◌<◌, ◌^◌, ◌≡◌, refl, sym, ap, ◌∙◌, Bool, true, false, not, ◌&&◌, ◌||◌, Option, none, some,
  List, [], ◌∷◌, ◌++◌, append_assoc, append-nil, arith, Text, Dict, get, text_key, eqb, max,
  if◌then◌else◌, is_some, Bool-cases, inl, inr,
}
use gravil.Addr.{show_ip}
use gravil.Addr.RoundTrip.{parse_ip4-show_ip}
use gravil.Dns.{
  Packages, Mappings, Question, Rr, a_record, Msg, set_reply, default_ttl_seconds, rcode_success,
  rcode_name_error, is_address_type, address_of, answer_one, answer_all, Link, process_own_response,
  max_size, dns_local_domain_handler,
}
use gravil.Dns.Names.{Lists, tables, direct_mapping_iff}

-- The types A, AAAA and ANY.
abbrev pub asks_address : ℕ → Bool
asks_address t = eqb t 1 || eqb t 28 || eqb t 255

-- How many bytes a message may have: over TCP any that its length can say; else what the request
-- allows, and 512 in any case.
abbrev pub size_limit : Link → ℕ
size_limit l = if l.is_tcp then 65535 else max 512 (allowed l.edns_size)
  where
    allowed : Option ℕ → ℕ
    allowed none = 0
    allowed (some n) = n

-- A message as it goes out.
abbrev pub sent : (ℕ → Msg → Msg) → Link → Msg → Msg
sent truncate l m = record {
  rcode = (truncate (size_limit l) m).rcode;
  answer = (truncate (size_limit l) m).answer;
  authoritative = true;
  recursion_available = true;
}

pub process_own_response-sent :
    (truncate : ℕ → Msg → Msg) (l : Link) (m : Msg)
    → process_own_response truncate l m ≡ sent truncate l m
unfolding process_own_response max_size
process_own_response-sent truncate l m =
    ap (λ n. record (truncate n m) { authoritative = true; recursion_available = true })
      (same_size l.edns_size)
  where
    same_size : (o : Option ℕ) → max_size l o ≡ size_limit (record l { edns_size = o })
    same_size none = ground arith
    same_size (some n) = ground arith

module _ (ns : Packages) (c : Mappings) where
  abbrev pub mapped : Question → Option Text
  mapped q = get (ns.to_lower q.name) c.direct_mapping

  -- One A record for each question for an address, under the name as it was asked.
  abbrev pub records : List Question → List Rr
  records [] = []
  records (q ∷ qs) =
      if asks_address q.qtype
      then a_record q.name default_ttl_seconds (address_of ns (mapped q)) ∷ records qs
      else records qs

  -- Is some name that an address is asked for unknown?
  abbrev pub misses : List Question → Bool
  misses [] = false
  misses (q ∷ qs) = asks_address q.qtype && not (is_some (mapped q)) || misses qs

  answer_all-records :
      (qs : List Question) (m : Msg)
      → ((answer_all ns c qs m).answer ≡ m.answer ++ records qs)
        × ((answer_all ns c qs m).rcode ≡ (if misses qs then rcode_name_error else m.rcode))
  unfolding answer_all answer_one
  answer_all-records [] m = (sym (append-nil m.answer), refl)
  answer_all-records (q ∷ qs) m =
      let ih = answer_all-records qs (answer_one ns q (mapped q) m) in
      let record_of : Rr = a_record q.name default_ttl_seconds (address_of ns (mapped q)) in
      (
        ih.0 ∙ elim (Bool-cases (is_address_type q.qtype)) [
          | inl asks ↦ rw asks (append_assoc m.answer (record_of ∷ []) (records qs))
          | inr other ↦ rw other refl
        ],
        ih.1 ∙ ground arith,
      )

abbrev pub is_some_question : List Question → Bool
is_some_question [] = false
is_some_question (q ∷ qs) = true

-- The message for a request: its answers, and the code NXDOMAIN where a name is unknown.
abbrev pub reply_to : Packages → Mappings → List Question → Msg
reply_to ns c qs = record set_reply {
  rcode = if misses ns c qs then rcode_name_error else rcode_success;
  answer = records ns c qs;
}

answer_one-flags :
    (ns : Packages) (q : Question) (o : Option Text) (m : Msg)
    → ((answer_one ns q o m).authoritative ≡ m.authoritative)
      × ((answer_one ns q o m).recursion_available ≡ m.recursion_available)
unfolding answer_one
answer_one-flags ns q o m = (ground arith, ground arith)

answer_all-flags :
    (ns : Packages) (c : Mappings) (qs : List Question) (m : Msg)
    → ((answer_all ns c qs m).authoritative ≡ m.authoritative)
      × ((answer_all ns c qs m).recursion_available ≡ m.recursion_available)
unfolding answer_all
answer_all-flags ns c [] m = (refl, refl)
answer_all-flags ns c (q ∷ qs) m =
    let ih = answer_all-flags ns c qs (answer_one ns q (mapped ns c q) m) in
    let one = answer_one-flags ns q (mapped ns c q) m in (ih.0 ∙ one.0, ih.1 ∙ one.1)

same_Msg :
    (m n : Msg)
    → m.rcode ≡ n.rcode
    → m.answer ≡ n.answer
    → m.authoritative ≡ n.authoritative
    → m.recursion_available ≡ n.recursion_available
    → m ≡ n
same_Msg m n a b c d i = record {
  rcode = a i;
  answer = b i;
  authoritative = c i;
  recursion_available = d i;
}

-- A request with questions is answered by one A record for each question of the types A, AAAA and ANY,
-- in their order and under the names as they were asked, with the address that the table has for the
-- name in lower case, and with NXDOMAIN exactly where one of these names is unknown. The message goes
-- out authoritative, with recursion available, after it was truncated to 65535 bytes over TCP, else to
-- what the request allows and at least 512. A request with no question is not answered.
pub dns_local_domain_handler-reply :
    (ns : Packages) (truncate : ℕ → Msg → Msg) (c : Mappings) (l : Link) (qs : List Question)
    → dns_local_domain_handler ns truncate c l qs
      ≡ (if is_some_question qs then some (sent truncate l (reply_to ns c qs)) else none)
unfolding dns_local_domain_handler
dns_local_domain_handler-reply ns truncate c l [] = refl
dns_local_domain_handler-reply ns truncate c l (q ∷ qs) =
    let r = answer_all-records ns c (q ∷ qs) set_reply in
    let g = answer_all-flags ns c (q ∷ qs) set_reply in
    ap (λ m. some (process_own_response truncate l m))
      (same_Msg (answer_all ns c (q ∷ qs) set_reply) (reply_to ns c (q ∷ qs)) r.1 r.0 g.0 g.1)
    ∙ ap some (process_own_response-sent truncate l (reply_to ns c (q ∷ qs)))

-- A name that is not known is answered with NXDOMAIN and, all the same, an A record that has no
-- address.
pub dns_local_domain_handler_missing :
    (ns : Packages) (truncate : ℕ → Msg → Msg) (c : Mappings) (l : Link) (q : Question)
    → asks_address q.qtype ≡ true
    → get (ns.to_lower q.name) c.direct_mapping ≡ none
    → dns_local_domain_handler ns truncate c l (q ∷ [])
      ≡ some (
          sent truncate l (record set_reply {
            rcode = rcode_name_error;
            answer = a_record q.name default_ttl_seconds none ∷ [];
          }))
dns_local_domain_handler_missing ns truncate c l q asks missing =
    dns_local_domain_handler-reply ns truncate c l (q ∷ []) ∙ rw (asks, missing) refl

-- The name of a peer, asked for in any case, is answered with the peer's address alone.
pub dns_local_domain_handler_known :
    (ns : Packages) (truncate : ℕ → Msg → Msg) (upstream : Text) (names : Dict Text Text) (l : Link)
    (q : Question) (name : Text) (a : ℕ)
    → ((n u v : Text) → Lists ns n u names → Lists ns n v names → u ≡ v)
    → Lists ns name (show_ip a) names
    → a < 2 ^ 32
    → asks_address q.qtype ≡ true
    → ns.to_lower q.name ≡ name
    → dns_local_domain_handler ns truncate (tables ns upstream names) l (q ∷ [])
      ≡ some (
          sent truncate l
            (record set_reply { answer = a_record q.name default_ttl_seconds (some a) ∷ [] }))
dns_local_domain_handler_known ns truncate upstream names l q name a single listed small asks
      lower =
    let found : get (ns.to_lower q.name) (tables ns upstream names).direct_mapping
        ≡ some (show_ip a) =
      ap (λ n. get n (tables ns upstream names).direct_mapping) lower
      ∙ (direct_mapping_iff ns upstream names single name (show_ip a)).1 listed in
    dns_local_domain_handler-reply ns truncate (tables ns upstream names) l (q ∷ [])
    ∙ rw (asks, found, parse_ip4-show_ip ns.ipv6 a (omega arith)) refl
