-- ===== src/Dns/Reverse.antt =====
-- awldns/awldns.go: the names of addresses, and what `ptrv4Handler` answers.
use gravil.Base.{
  ℕ, ◌<◌, ◌≤◌, ◌^◌, ◌≡◌, inl, inr, refl, ap, ◌∙◌, true, some, List, [], ◌∷◌, ◌++◌, arith, Text,
  text, Dict, text_key, text_eq_iff, ==_refl, ◌==◌, length, length-append, if◌then◌else◌,
  Bool-cases,
}
use gravil.Addr.{parse_ip4, show_ip}
use gravil.Addr.RoundTrip.{parse_ip4-show_ip}
use gravil.Dns.{
  Packages, Question, Rr, ptr_record, a_record, Msg, set_reply, Link, process_own_response,
  dns_local_domain_handler, trim_suffix, ptr_v4_suffix, reversed, reversed_ip, ptr_v4_name_to_ip,
  own, ptr_mapped, ptr_of, ptrv4_handler, byte_len,
}
use gravil.Dns.Names.{Lists, tables, reverse_mapping-shortest}
use gravil.Dns.Answers.{
  asks_address, size_limit, sent, process_own_response-sent, dns_local_domain_handler_known,
}

-- The suffix behind any text is trimmed, and the text is left.
trim_suffix-append : (c : ℕ) (suffix s : Text) → trim_suffix (c ∷ suffix) (s ++ c ∷ suffix) ≡ s
unfolding trim_suffix
trim_suffix-append c suffix [] =
    ap (λ b. if b then [] else c ∷ trim_suffix (c ∷ suffix) suffix) (==_refl (c ∷ suffix))
trim_suffix-append c suffix (d ∷ s) = elim (Bool-cases ((d ∷ s ++ c ∷ suffix) == c ∷ suffix)) [
  | inl same ↦ absurd (
      omega (
        arith,
        ap length ((text_eq_iff (d ∷ s ++ c ∷ suffix) (c ∷ suffix)).0 same),
        length-append s (c ∷ suffix),
      ))
  | inr longer ↦
      ap (λ b. if b then [] else d ∷ trim_suffix (c ∷ suffix) (s ++ c ∷ suffix)) longer
      ∙ ap (◌∷◌ d) (trim_suffix-append c suffix s)
]

reversed-reversed : (a : ℕ) → a < 2 ^ 32 → reversed (reversed a) ≡ a
reversed-reversed a h = omega arith

reversed-lt : (a : ℕ) → reversed a < 2 ^ 32
reversed-lt a = omega arith

-- A message with one answer.
abbrev pub alone : Rr → Msg
alone rr = record { rcode = 0; answer = rr ∷ []; authoritative = true; recursion_available = true }

-- The name of an address in the zone in-addr.arpa.
abbrev pub ptr_name : ℕ → Text
ptr_name a = show_ip (reversed a) ++ ptr_v4_suffix

-- The name of an IPv4 address in the zone in-addr.arpa is read as that address.
pub ptr_v4_name_to_ip-ptr_name :
    (ns : Packages) (a : ℕ) → a < 2 ^ 32 → ptr_v4_name_to_ip ns (ptr_name a) ≡ some a
unfolding ptr_v4_name_to_ip
ptr_v4_name_to_ip-ptr_name ns a h =
    ap (λ s. reversed_ip (parse_ip4 ns.ipv6 s))
      (trim_suffix-append 46 (text "in-addr.arpa.") (show_ip (reversed a)))
    ∙ ap reversed_ip (parse_ip4-show_ip ns.ipv6 (reversed a) (omega (arith, reversed-lt a)))
    ∙ ap some (reversed-reversed a h)

module _ (ns : Packages) (truncate : ℕ → Msg → Msg) (upstream : Text) (names : Dict Text Text)
    (l : Link) (name : Text) (a : ℕ) where
  sent_whole :
      ((m : Msg) → length m.answer ≡ 1 → truncate (size_limit l) m ≡ m)
      → (rr : Rr) → sent truncate l (record set_reply { answer = rr ∷ [] }) ≡ alone rr
  sent_whole whole rr =
      ap
        (λ (m : Msg). record {
          rcode = m.rcode;
          answer = m.answer;
          authoritative = true;
          recursion_available = true;
        })
        (whole (record set_reply { answer = rr ∷ [] }) refl)

  goes_out :
      ((m : Msg) → length m.answer ≡ 1 → truncate (size_limit l) m ≡ m)
      → (rr : Rr)
      → process_own_response truncate l (record set_reply { answer = rr ∷ [] }) ≡ alone rr
  goes_out whole rr = process_own_response-sent truncate l _ ∙ sent_whole whole rr

  -- Where no canonical name has two addresses, and a message with one answer needs no truncation: the
  -- address of a peer leads to a name, none longer than any of the peer's, in one PTR record, and that
  -- name, asked for in any case, back to the address, in one A record.
  pub ptrv4_handler-local :
      ((n u v : Text) → Lists ns n u names → Lists ns n v names → u ≡ v)
      → ((m : Msg) → length m.answer ≡ 1 → truncate (size_limit l) m ≡ m)
      → Lists ns name (show_ip a) names
      → a < 2 ^ 32
      → (n : Text) × (byte_len n ≤ byte_len name)
        × ((qs : List Question)
            → ptrv4_handler ns truncate
                (tables ns upstream names)
                l
                (record { name = ptr_name a; qtype = 12 } ∷ qs)
              ≡ own (alone (ptr_record (ptr_name a) 60 n)))
        × ((q : Question)
            → asks_address q.qtype ≡ true
            → ns.to_lower q.name ≡ n
            → dns_local_domain_handler ns truncate (tables ns upstream names) l (q ∷ [])
              ≡ some (alone (a_record q.name 60 (some a))))
  unfolding ptrv4_handler ptr_of ptr_mapped
  ptrv4_handler-local single whole listed small =
      let r = reverse_mapping-shortest ns upstream names in
      let h = r.1 (show_ip a) name listed in
      (
        h.0,
        h.2,
        λ qs.
            rw (ptr_v4_name_to_ip-ptr_name ns a small, h.1)
              (ap own (goes_out whole (ptr_record (ptr_name a) 60 h.0))),
        λ q asks lower.
            dns_local_domain_handler_known ns truncate upstream names l q h.0 a single
              (r.0 (show_ip a) h.0 h.1) small asks lower
            ∙ ap some (sent_whole whole (a_record q.name 60 (some a))),
      )
