-- ===== src/Dns/Examples.antt =====
-- awldns/awldns.go: a device with the names of one peer, and the theorems at it.
use gravil.Base.{
  ℕ, ◌≡◌, ◌≤◌, inl, inr, refl, true, false, none, some, List, [], ◌∷◌, arith, Text, text, Dict, get,
  put, text_key, text_eq,
}
use gravil.Addr.{show_ip}
use gravil.Dns.{
  Packages, Question, a_record, ptr_record, Msg, type_a, Link, own, byte_len,
  dns_local_domain_handler, ptrv4_handler, receive, shorter, receive_configuration,
}
use gravil.Dns.Names.{Lists, tables}
use gravil.Dns.Answers.{asks_address, sent, reply_to, dns_local_domain_handler-reply}
use gravil.Dns.Reverse.{alone, ptr_name, ptrv4_handler-local}

abbrev plain : Packages
plain = record { canonical_name = λ s. s; to_lower = λ s. s; ipv6 = λ s. none }

abbrev udp : Link
udp = record { is_tcp = false; edns_size = none }

abbrev laptop_ip : Text
laptop_ip = show_ip 0x0a420002

abbrev names : Dict Text Text
names = (text "A1", laptop_ip) ∷ (text "laptop", laptop_ip) ∷ []

abbrev whole : ℕ → Msg → Msg
whole size m = m

-- Both names have the one address.
one_address : (n u v : Text) → Lists plain n u names → Lists plain n v names → u ≡ v
one_address n u v h k = ground (arith, h, k)

abbrev nobody : Question
nobody = record { name = text "nobody.awl"; qtype = type_a }

ptrv4_handler-local_example :
    (n : Text) × (byte_len n ≤ byte_len (text "laptop.awl"))
    × ((qs : List Question)
        → ptrv4_handler plain whole
            (tables plain [] names)
            udp
            (record { name = ptr_name 0x0a420002; qtype = 12 } ∷ qs)
          ≡ own (alone (ptr_record (ptr_name 0x0a420002) 60 n)))
    × ((q : Question)
        → asks_address q.qtype ≡ true
        → q.name ≡ n
        → dns_local_domain_handler plain whole (tables plain [] names) udp (q ∷ [])
          ≡ some (alone (a_record q.name 60 (some 0x0a420002))))
ptrv4_handler-local_example =
    ptrv4_handler-local plain whole [] names udp (text "laptop.awl") 0x0a420002 one_address
      (λ m h. refl) (inr (inl (refl, refl))) (omega arith)

two_names_shortest :
    (receive_configuration plain [] names).reverse_mapping ≡ (laptop_ip, text "A1.awl") ∷ []
unfolding receive_configuration receive shorter byte_len get put text_eq show_ip
two_names_shortest = refl

abbrev laptop_asked : Question
laptop_asked = record { name = text "laptop.awl"; qtype = type_a }

dns_local_domain_handler-reply_example :
    dns_local_domain_handler plain whole (tables plain [] names) udp (laptop_asked ∷ nobody ∷ [])
    ≡ some (sent whole udp (reply_to plain (tables plain [] names) (laptop_asked ∷ nobody ∷ [])))
dns_local_domain_handler-reply_example =
    dns_local_domain_handler-reply plain whole (tables plain [] names) udp
      (laptop_asked ∷ nobody ∷ [])
