-- ===== src/Config/Peers/Names.antt =====
-- config/config.go: `DNSNamesMapping`.
use gravil.Base.{
  ◌≡◌, ◌⊎◌, inl, inr, true, false, some, [], ◌∷◌, arith, Text, Dict, get, put, text_key,
  text_eq_iff, if◌then◌else◌, is_some, get-put,
}
use gravil.Config.{Config, KnownPeer}
use gravil.Config.Peers.{is_empty, dns_names_from, dns_names_mapping}

-- A peer answers to its ID and to its domain name.
abbrev pub AnswersTo : Text → KnownPeer → Type 0
AnswersTo name p = (p.peer_id ≡ name) ⊎ ((p.domain_name ≡ name) × (is_empty p.domain_name ≡ false))

-- Some entry of the table answers to the name and has the address.
abbrev pub Named : Text → Text → Dict Text KnownPeer → Type 0
Named name ip [] = ⊥
Named name ip ((_, p) ∷ ps) = (AnswersTo name p × (p.ip_addr ≡ ip)) ⊎ Named name ip ps

-- One entry's names, added to a mapping.
abbrev add_names : Dict Text Text → KnownPeer → Dict Text Text
add_names m p =
    if is_empty p.domain_name
    then put p.peer_id p.ip_addr m
    else put p.domain_name p.ip_addr (put p.peer_id p.ip_addr m)

get-add_names :
    (m : Dict Text Text) (p : KnownPeer) (name ip : Text)
    → get name (add_names m p) ≡ some ip
    → (get name m ≡ some ip) ⊎ (AnswersTo name p × (p.ip_addr ≡ ip))
get-add_names m p name ip h = ground (
  arith,
  get-put p.peer_id name p.ip_addr m,
  get-put p.domain_name name p.ip_addr (put p.peer_id p.ip_addr m),
  text_eq_iff p.peer_id name,
  text_eq_iff p.domain_name name,
)

sound_from :
    (ps : Dict Text KnownPeer) (m : Dict Text Text) (name ip : Text)
    → get name (dns_names_from m ps) ≡ some ip
    → (get name m ≡ some ip) ⊎ Named name ip ps
unfolding dns_names_from
sound_from [] m name ip h = inl h
sound_from ((k, p) ∷ ps) m name ip h = elim (sound_from ps _ name ip h) [
  | inr later ↦ inr (inr later)
  | inl now ↦ elim (get-add_names m p name ip now) [
    | inl before ↦ inl before
    | inr here ↦ inr (inl here)
  ]
]

-- Every name in the mapping belongs to a known peer and has that peer's address.
pub dns_names_mapping_sound :
    (c : Config) (name ip : Text)
    → get name (dns_names_mapping c) ≡ some ip
    → Named name ip c.known_peers
unfolding dns_names_mapping get
dns_names_mapping_sound c name ip h = elim (sound_from c.known_peers [] name ip h) [
  | inl empty ↦ cc
  | inr named ↦ named
]

-- Some entry of the table answers to the name.
abbrev pub Answered : Text → Dict Text KnownPeer → Type 0
Answered name [] = ⊥
Answered name ((_, p) ∷ ps) = AnswersTo name p ⊎ Answered name ps

kept_by_add :
    (m : Dict Text Text) (p : KnownPeer) (name : Text)
    → (is_some (get name m) ≡ true) ⊎ AnswersTo name p
    → is_some (get name (add_names m p)) ≡ true
kept_by_add m p name h = ground (
  arith,
  get-put p.peer_id name p.ip_addr m,
  get-put p.domain_name name p.ip_addr (put p.peer_id p.ip_addr m),
  text_eq_iff p.peer_id name,
  text_eq_iff p.domain_name name,
)

complete_from :
    (ps : Dict Text KnownPeer) (m : Dict Text Text) (name : Text)
    → (is_some (get name m) ≡ true) ⊎ Answered name ps
    → is_some (get name (dns_names_from m ps)) ≡ true
unfolding dns_names_from
complete_from [] m name (inl h) = h
complete_from [] m name (inr h) = absurd h
complete_from ((k, p) ∷ ps) m name (inl h) =
    complete_from ps _ name (inl (kept_by_add m p name (inl h)))
complete_from ((k, p) ∷ ps) m name (inr (inl h)) =
    complete_from ps _ name (inl (kept_by_add m p name (inr h)))
complete_from ((k, p) ∷ ps) m name (inr (inr h)) = complete_from ps _ name (inr h)

-- Every known peer is found in the mapping by its ID and, if it has one, by its domain name.
pub dns_names_mapping_complete :
    (c : Config) (name : Text)
    → Answered name c.known_peers
    → is_some (get name (dns_names_mapping c)) ≡ true
unfolding dns_names_mapping
dns_names_mapping_complete c name h = complete_from c.known_peers [] name (inr h)
