-- ===== src/Dns/Names.antt =====
-- awldns/awldns.go: the two tables that `ReceiveConfiguration` makes from the names of peers.
use gravil.Base.{
  ℕ, ◌≤◌, ◌≡◌, ◌⊎◌, ◌↔◌, inl, inr, refl, sym, ap, ◌∙◌, subst, Option, none, some, [], ◌∷◌, arith,
  Text, Dict, get, put, get-put, ◌==◌, ==_refl, text_key, text_eq_iff, if◌then◌else◌, ltb,
  Bool-cases,
}
use gravil.Dns.{Packages, Mappings, local_name, byte_len, shorter, receive, receive_configuration}

-- The name and the address are an entry of the list, under a key that makes the name.
abbrev pub Lists : Packages → Text → Text → Dict Text Text → Type 0
Lists ns name ip [] = ⊥
Lists ns name ip ((key, a) ∷ ps) = ((local_name ns key ≡ name) × (a ≡ ip)) ⊎ Lists ns name ip ps

-- A name that was there stays, maybe with another address.
still_there :
    (n m v : Text) (d : Dict Text Text) (o : Text)
    → get m d ≡ some o
    → (x : Text) × (get m (put n v d) ≡ some x)
still_there n m v d o e = elim (Bool-cases (n == m)) [
  | inl same ↦ (v, get-put n m v d ∙ ap (λ b. if b then some v else get m d) same)
  | inr other ↦ (o, get-put n m v d ∙ ap (λ b. if b then some v else get m d) other ∙ e)
]

put_here : (n v : Text) (d : Dict Text Text) → get n (put n v d) ≡ some v
put_here n v d = get-put n n v d ∙ ap (λ b. if b then some v else get n d) (==_refl n)

-- What a lookup finds behind a `put`.
put_back :
    (n m v o : Text) (d : Dict Text Text)
    → get m (put n v d) ≡ some o
    → ((n ≡ m) × (v ≡ o)) ⊎ (get m d ≡ some o)
put_back n m v o d e = ground (arith, e, get-put n m v d, text_eq_iff n m)

shorter_back :
    (name a ip n : Text) (o : Option Text) (m : Dict Text Text)
    → get ip (shorter name a o m) ≡ some n
    → ((a ≡ ip) × (name ≡ n)) ⊎ (get ip m ≡ some n)
unfolding shorter
shorter_back name a ip n none m e = put_back a ip name n m e
shorter_back name a ip n (some old) m e = elim (Bool-cases (ltb (byte_len name) (byte_len old))) [
  | inl less ↦ put_back a ip name n m (rw less at e)
  | inr more ↦ inr (rw more at e)
]

-- The address has a name of at most that length.
abbrev pub HasName : Dict Text Text → Text → ℕ → Type 0
HasName m ip bound = (n : Text) × (get ip m ≡ some n) × (byte_len n ≤ bound)

HasName-put :
    (name a ip : Text) (bound : ℕ) (m : Dict Text Text)
    → HasName m ip bound
    → ((a ≡ ip) → byte_len name ≤ bound)
    → HasName (put a name m) ip bound
HasName-put name a ip bound m (n, e, h) small = elim (Bool-cases (a == ip)) [
  | inl same ↦ (
    name,
    get-put a ip name m ∙ ap (λ b. if b then some name else get ip m) same,
    small ((text_eq_iff a ip).0 same),
  )
  | inr other ↦ (n, get-put a ip name m ∙ ap (λ b. if b then some name else get ip m) other ∙ e, h)
]

shorter_keeps :
    (name a ip : Text) (bound : ℕ) (m : Dict Text Text) (o : Option Text)
    → get a m ≡ o
    → HasName m ip bound
    → HasName (shorter name a o m) ip bound
unfolding shorter
shorter_keeps name a ip bound m none there h =
    HasName-put name a ip bound m h (λ same. cc (ap (λ k. get k m) same, there, h.1))
shorter_keeps name a ip bound m (some old) there h =
    elim (Bool-cases (ltb (byte_len name) (byte_len old))) [
      | inl less ↦ rw less (
          HasName-put name a ip bound m h (λ same. ground (
            arith,
            less,
            h.2,
            there,
            h.1,
            ap (λ k. get k m) same,
            ap byte_len {x = old} {y = h.0},
          )))
      | inr more ↦ rw more h
    ]

shorter_adds :
    (name a : Text) (m : Dict Text Text) (o : Option Text)
    → get a m ≡ o
    → HasName (shorter name a o m) a (byte_len name)
unfolding shorter
shorter_adds name a m none there = (name, put_here a name m, omega arith)
shorter_adds name a m (some old) there = elim (Bool-cases (ltb (byte_len name) (byte_len old))) [
  | inl less ↦ rw less (name, put_here a name m, omega arith)
  | inr more ↦ rw more (old, there, ground (arith, more))
]

module _ (ns : Packages) where
  -- The tables behind one entry.
  abbrev stepped : Mappings → Text → Text → Mappings
  stepped c key a = record c {
    direct_mapping = put (local_name ns key) a c.direct_mapping;
    reverse_mapping = shorter (local_name ns key) a (get a c.reverse_mapping) c.reverse_mapping;
  }

  direct-Lists :
      (c : Mappings) (names : Dict Text Text) (name ip : Text)
      → get name (receive ns c names).direct_mapping ≡ some ip
      → Lists ns name ip names ⊎ (get name c.direct_mapping ≡ some ip)
  unfolding receive
  direct-Lists c [] name ip e = inr e
  direct-Lists c ((key, a) ∷ names) name ip e =
      elim (direct-Lists (stepped c key a) names name ip e) [
        | inl later ↦ inl (inr later)
        | inr before ↦ elim (put_back (local_name ns key) name a ip c.direct_mapping before) [
          | inl h ↦ inl (inl h)
          | inr h ↦ inr h
        ]
      ]

  direct-keeps :
      (c : Mappings) (names : Dict Text Text) (name ip : Text)
      → get name c.direct_mapping ≡ some ip
      → (x : Text) × (get name (receive ns c names).direct_mapping ≡ some x)
  unfolding receive
  direct-keeps c [] name ip e = (ip, e)
  direct-keeps c ((key, a) ∷ names) name ip e =
      let p = still_there (local_name ns key) name a c.direct_mapping ip e in
      direct-keeps (stepped c key a) names name p.0 p.1

  direct-has :
      (c : Mappings) (names : Dict Text Text) (name ip : Text)
      → Lists ns name ip names
      → (x : Text) × (get name (receive ns c names).direct_mapping ≡ some x)
  unfolding receive
  direct-has c [] name ip h = absurd h
  direct-has c ((key, a) ∷ names) name ip (inl h) = direct-keeps (stepped c key a) names name a (
      ap (λ k. get k (put (local_name ns key) a c.direct_mapping)) (sym h.0)
      ∙ put_here (local_name ns key) a c.direct_mapping)
  direct-has c ((key, a) ∷ names) name ip (inr h) = direct-has (stepped c key a) names name ip h

  reverse-Lists :
      (c : Mappings) (names : Dict Text Text) (name ip : Text)
      → get ip (receive ns c names).reverse_mapping ≡ some name
      → Lists ns name ip names ⊎ (get ip c.reverse_mapping ≡ some name)
  unfolding receive
  reverse-Lists c [] name ip e = inr e
  reverse-Lists c ((key, a) ∷ names) name ip e =
      elim (reverse-Lists (stepped c key a) names name ip e) [
        | inl later ↦ inl (inr later)
        | inr before ↦
            elim (shorter_back (local_name ns key) a ip name (get a c.reverse_mapping)
              c.reverse_mapping before) [ inl h ↦ inl (inl (h.1, h.0)) | inr h ↦ inr h ]
      ]

  reverse-keeps :
      (c : Mappings) (names : Dict Text Text) (ip : Text) (bound : ℕ)
      → HasName c.reverse_mapping ip bound
      → HasName (receive ns c names).reverse_mapping ip bound
  unfolding receive
  reverse-keeps c [] ip bound h = h
  reverse-keeps c ((key, a) ∷ names) ip bound h = reverse-keeps (stepped c key a) names ip bound (
      shorter_keeps (local_name ns key) a ip bound c.reverse_mapping (get a c.reverse_mapping) refl
        h)

  reverse-has :
      (c : Mappings) (names : Dict Text Text) (name ip : Text)
      → Lists ns name ip names
      → HasName (receive ns c names).reverse_mapping ip (byte_len name)
  unfolding receive
  reverse-has c [] name ip h = absurd h
  reverse-has c ((key, a) ∷ names) name ip (inl h) =
      reverse-keeps (stepped c key a) names ip (byte_len name) (
        subst (λ n. HasName (stepped c key a).reverse_mapping ip (byte_len n)) h.0
          (subst (λ i. HasName (stepped c key a).reverse_mapping i (byte_len (local_name ns key)))
            h.1
            (shorter_adds (local_name ns key) a c.reverse_mapping (get a c.reverse_mapping) refl)))
  reverse-has c ((key, a) ∷ names) name ip (inr h) = reverse-has (stepped c key a) names name ip h

  module _ (upstream : Text) (names : Dict Text Text) where
    abbrev pub tables : Mappings
    tables = receive_configuration ns upstream names

    -- The reverse table has a name for an address exactly where some name has the address; the name
    -- is one of those, and none of those is shorter.
    pub reverse_mapping-shortest :
        ((ip name : Text) → get ip tables.reverse_mapping ≡ some name → Lists ns name ip names)
        × ((ip name : Text)
            → Lists ns name ip names
            → HasName tables.reverse_mapping ip (byte_len name))
    unfolding receive_configuration get
    reverse_mapping-shortest = (
      λ ip name e.
          elim (reverse-Lists
            (record { upstream_dns = upstream; direct_mapping = []; reverse_mapping = [] }) names
            name ip e) [ inl h ↦ h | inr none_yet ↦ cc ],
      λ ip name h.
          reverse-has
            (record { upstream_dns = upstream; direct_mapping = []; reverse_mapping = [] }) names
            name ip h,
    )

    -- Where no two addresses share a name, the direct table maps each name to its address, and no
    -- other name to anything.
    pub direct_mapping_iff :
        ((name a b : Text) → Lists ns name a names → Lists ns name b names → a ≡ b)
        → (name ip : Text) → (get name tables.direct_mapping ≡ some ip) ↔ Lists ns name ip names
    unfolding receive_configuration get
    direct_mapping_iff single name ip = (back, forth)
      where
        back : get name tables.direct_mapping ≡ some ip → Lists ns name ip names
        back e =
            elim (direct-Lists
              (record { upstream_dns = upstream; direct_mapping = []; reverse_mapping = [] }) names
              name ip e) [ inl h ↦ h | inr none_yet ↦ cc ]

        back_any : (a : Text) → get name tables.direct_mapping ≡ some a → Lists ns name a names
        back_any a e =
            elim (direct-Lists
              (record { upstream_dns = upstream; direct_mapping = []; reverse_mapping = [] }) names
              name a e) [ inl h ↦ h | inr none_yet ↦ cc ]

        forth : Lists ns name ip names → get name tables.direct_mapping ≡ some ip
        forth h =
            let x =
              direct-has
                (record { upstream_dns = upstream; direct_mapping = []; reverse_mapping = [] })
                names name ip h in
            x.1 ∙ ap some (single name x.0 ip (back_any x.0 x.1) h)
