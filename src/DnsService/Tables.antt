-- ===== src/DnsService/Tables.antt =====
-- application.go with config/config.go and awldns/awldns.go: the resolver's tables for one configuration.
use gravil.Base.{
  ◌≡◌, ◌≢◌, ◌⊎◌, inl, inr, sym, ap, ◌∙◌, Bool, true, false, none, some, [], ◌∷◌, Text, Dict, get,
  put, get-put, Distinct, put-Distinct, ◌==◌, ==_refl, ==_ne, text_key, text_eq_iff, if◌then◌else◌,
  is_some, Bool-cases, Option-cases,
}
use gravil.Config.{Config, KnownPeer}
use gravil.Config.Peers.{is_empty, dns_names_from, dns_names_mapping}
use gravil.Config.Peers.Names.{Named, Answered, dns_names_mapping_sound, dns_names_mapping_complete}
use gravil.Dns.{Packages, Mappings, local_name}
use gravil.Dns.Names.{Lists, direct_mapping_iff}
use gravil.DnsService.{admin_http_server_domain_name, admin_http_server_ip, names_of, tables_of}

-- A `range` loop meets each entry of a map once, in some order.
pub record IsRange (order : Dict Text Text → Dict Text Text) : Type 0 where
  pub distinct : (m : Dict Text Text) → Distinct m → Distinct (order m)
  pub held : (m : Dict Text Text) (k : Text) → get k (order m) ≡ get k m

names_from-Distinct :
    (ps : Dict Text KnownPeer) (m : Dict Text Text) → Distinct m → Distinct (dns_names_from m ps)
unfolding dns_names_from
names_from-Distinct [] m d = d
names_from-Distinct ((k, p) ∷ ps) m d =
    let with_id = put p.peer_id p.ip_addr m in
    let d' = put-Distinct p.peer_id p.ip_addr m d in
    names_from-Distinct ps _ (
      either (is_empty p.domain_name) with_id _ d'
        (put-Distinct p.domain_name p.ip_addr with_id d'))
  where
    either :
        (b : Bool) (x y : Dict Text Text) → Distinct x → Distinct y → Distinct (if b then x else y)
    either true x y h k = h
    either false x y h k = k

names_of-Distinct : (c : Config) → Distinct (names_of c)
unfolding names_of dns_names_mapping
names_of-Distinct c =
    put-Distinct admin_http_server_domain_name admin_http_server_ip
      (dns_names_from [] c.known_peers) (names_from-Distinct c.known_peers [] tt)

no_value : {x : Text} → none ≡ some x → ⊥
no_value e = cc

some_eq : {x y : Text} → some x ≡ some y → x ≡ y
some_eq e = cc

module _ (ns : Packages) where
  -- An entry of a list without doubles is found by its key.
  Lists-get :
      (name ip : Text) (m : Dict Text Text)
      → Distinct m
      → Lists ns name ip m
      → (key : Text) × (local_name ns key ≡ name) × (get key m ≡ some ip)
  unfolding get
  Lists-get name ip [] d h = absurd h
  Lists-get name ip ((k, a) ∷ m) d (inl h) =
      (k, h.0, ap (λ b. if b then some a else get k m) (==_refl k) ∙ ap some h.1)
  Lists-get name ip ((k, a) ∷ m) d (inr h) =
      let found = Lists-get name ip m d.1 h in
      let other : (k == found.0) ≡ false = elim (Bool-cases (k == found.0)) [
        | inr e ↦ e
        | inl e ↦
            absurd (no_value (sym d.0 ∙ ap (λ j. get j m) ((text_eq_iff k found.0).0 e) ∙ found.2))
      ] in
      (found.0, found.1, ap (λ b. if b then some a else get found.0 m) other ∙ found.2)

  get-Lists :
      (key ip : Text) (m : Dict Text Text) → get key m ≡ some ip → Lists ns (local_name ns key) ip m
  unfolding get
  get-Lists key ip [] h = cc
  get-Lists key ip ((k, a) ∷ m) h = elim (Bool-cases (k == key)) [
    | inl same ↦ inl (
      ap (local_name ns) ((text_eq_iff k key).0 same),
      some_eq (sym (ap (λ b. if b then some a else get key m) same) ∙ h),
    )
    | inr differs ↦
        inr (get-Lists key ip m (sym (ap (λ b. if b then some a else get key m) differs) ∙ h))
  ]

-- No two names of the configuration are one for the resolver, which compares them in canonical form.
abbrev pub AreSeparate : Packages → Dict Text Text → Type 0
AreSeparate ns m =
    (k j a b : Text)
    → get k m ≡ some a
    → get j m ≡ some b
    → local_name ns k ≡ local_name ns j
    → k ≡ j

-- The web server is found under its own name, whatever peers call themselves; every other name of a
-- peer leads to the address of a peer that has it; nothing else is found.
pub record Resolves (ns : Packages) (c : Config) (m : Mappings) : Type 0 where
  pub admin :
      get (local_name ns admin_http_server_domain_name) m.direct_mapping ≡ some admin_http_server_ip
  pub answered :
      (key : Text)
      → admin_http_server_domain_name ≢ key
      → Answered key c.known_peers
      → (ip : Text) × (get (local_name ns key) m.direct_mapping ≡ some ip)
        × Named key ip c.known_peers
  pub only :
      (name ip : Text)
      → get name m.direct_mapping ≡ some ip
      → (key : Text) × (local_name ns key ≡ name)
        × (((key ≡ admin_http_server_domain_name) × (ip ≡ admin_http_server_ip))
            ⊎ Named key ip c.known_peers)

module _ (ns : Packages) (order : Dict Text Text → Dict Text Text) (range : IsRange order)
    (c : Config) where
  order-Lists :
      (key ip : Text)
      → get key (names_of c) ≡ some ip
      → Lists ns (local_name ns key) ip (order (names_of c))
  order-Lists key ip e = get-Lists ns key ip (order (names_of c)) (range.held (names_of c) key ∙ e)

  Lists-order :
      (name ip : Text)
      → Lists ns name ip (order (names_of c))
      → (key : Text) × (local_name ns key ≡ name) × (get key (names_of c) ≡ some ip)
  Lists-order name ip h =
      let found =
        Lists-get ns name ip (order (names_of c))
          (range.distinct (names_of c) (names_of-Distinct c)) h in
      (found.0, found.1, sym (range.held (names_of c) found.0) ∙ found.2)

  names_of-admin : get admin_http_server_domain_name (names_of c) ≡ some admin_http_server_ip
  unfolding names_of
  names_of-admin =
      get-put admin_http_server_domain_name admin_http_server_domain_name admin_http_server_ip
        (dns_names_mapping c)
      ∙ ap
          (λ b.
            if b
            then some admin_http_server_ip
            else get admin_http_server_domain_name (dns_names_mapping c))
          (==_refl admin_http_server_domain_name)

  names_of-peer :
      (key : Text)
      → admin_http_server_domain_name ≢ key
      → get key (names_of c) ≡ get key (dns_names_mapping c)
  unfolding names_of
  names_of-peer key other =
      get-put admin_http_server_domain_name key admin_http_server_ip (dns_names_mapping c)
      ∙ ap (λ b. if b then some admin_http_server_ip else get key (dns_names_mapping c))
          (==_ne admin_http_server_domain_name key other)

  single :
      AreSeparate ns (names_of c)
      → (name a b : Text) → Lists ns name a (order (names_of c))
      → Lists ns name b (order (names_of c))
      → a ≡ b
  single separate name a b h k =
      let x = Lists-order name a h in
      let y = Lists-order name b k in
      let same = separate x.0 y.0 a b x.2 y.2 (x.1 ∙ sym y.1) in
      some_eq (sym x.2 ∙ ap (λ j. get j (names_of c)) same ∙ y.2)

  Answered-names_of :
      (key : Text)
      → admin_http_server_domain_name ≢ key
      → Answered key c.known_peers
      → (ip : Text) × (get key (names_of c) ≡ some ip) × Named key ip c.known_peers
  Answered-names_of key other h = elim (Option-cases (get key (dns_names_mapping c))) [
    | inl missing ↦ absurd (clash (sym (ap is_some missing) ∙ dns_names_mapping_complete c key h))
    | inr found ↦
        (found.0, names_of-peer key other ∙ found.1, dns_names_mapping_sound c key found.0 found.1)
  ]
    where
      clash : false ≡ true → ⊥
      clash e = cc

  names_of-Named :
      (key ip : Text)
      → get key (names_of c) ≡ some ip
      → ((key ≡ admin_http_server_domain_name) × (ip ≡ admin_http_server_ip))
        ⊎ Named key ip c.known_peers
  names_of-Named key ip e = elim (Bool-cases (admin_http_server_domain_name == key)) [
    | inl same ↦
        let same' = (text_eq_iff admin_http_server_domain_name key).0 same in
        inl (sym same', some_eq (sym e ∙ ap (λ k. get k (names_of c)) (sym same') ∙ names_of-admin))
    | inr other ↦
        inr (dns_names_mapping_sound c key ip (sym (names_of-peer key (differs other)) ∙ e))
  ]
    where
      clash : false ≡ true → ⊥
      clash e = cc

      differs : admin_http_server_domain_name == key ≡ false → admin_http_server_domain_name ≢ key
      differs h q = clash (sym h ∙ (text_eq_iff admin_http_server_domain_name key).1 q)

  pub tables_of-Resolves :
      (upstream : Text)
      → AreSeparate ns (names_of c)
      → Resolves ns c (tables_of ns order upstream c)
  tables_of-Resolves upstream separate =
      let direct = direct_mapping_iff ns upstream (order (names_of c)) (single separate) in
      record {
        admin =
            (direct (local_name ns admin_http_server_domain_name) admin_http_server_ip).1
              (order-Lists admin_http_server_domain_name admin_http_server_ip names_of-admin);
        answered = λ key other h.
            let found = Answered-names_of key other h in
            (
              found.0,
              (direct (local_name ns key) found.0).1 (order-Lists key found.0 found.1),
              found.2,
            );
        only = λ name ip e.
            let found = Lists-order name ip ((direct name ip).0 e) in
            (found.0, found.1, names_of-Named found.0 ip found.2);
      }
