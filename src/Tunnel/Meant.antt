-- ===== src/Tunnel/Meant.antt =====
-- service/tunnel.go: which packets are meant for a peer, and that `HandleReadPackets` routes these to it.
use gravil.Base.{
  ℕ, ◌≡◌, inl, inr, refl, sym, ap, ap₂, ◌∙◌, Bool, true, false, ◌&&◌, Option, none, some, List, [],
  ◌∷◌, arith, Text, get, ◌==◌, ◌||◌, eqb, eqb_iff, text_eq_iff, text_key, nat_key, if◌then◌else◌,
  Bool-cases,
}
use gravil.Addr.{Ip, v4, v6, to4}
use gravil.Tunnel.Broadcast.{leads_to}
use gravil.Tunnel.{Tunnel, Outgoing, route, ip_equal, is_broadcast}

-- What the code routes to the peer.
abbrev pub is_routed : (Text → Bool) → ℕ → Text → ℕ → Tunnel → Outgoing → Bool
is_routed connected net id a t p =
    if is_broadcast net p.dst
    then connected id && leads_to id (get a t.by_ip)
    else leads_to id (route p.dst t)

abbrev pub routed : (Text → Bool) → ℕ → Text → ℕ → Tunnel → List Outgoing → List (List ℕ)
routed connected net id a t [] = []
routed connected net id a t (p ∷ ps) =
    if is_routed connected net id a t p
    then p.payload ∷ routed connected net id a t ps
    else routed connected net id a t ps

-- Is this the IPv4 address of a destination?
abbrev pub has_ip4 : Option ℕ → ℕ → Bool
has_ip4 none a = false
has_ip4 (some b) a = eqb b a

abbrev pub has_address : ℕ → Ip → Bool
has_address a (v4 b) = eqb b a
has_address a (v6 b) = false

-- A packet is meant for the peer `id` with the address `a` if the table leads from the address to the
-- peer, and the packet has the address, or goes to the network's broadcast address or to
-- 255.255.255.255 and the peer is connected.
abbrev pub is_meant : (Text → Bool) → ℕ → Text → ℕ → Tunnel → Outgoing → Bool
is_meant connected net id a t p =
    leads_to id (get a t.by_ip)
    && (if has_ip4 (to4 p.dst) net || has_ip4 (to4 p.dst) 4294967295
        then connected id
        else has_address a p.dst)

abbrev pub meant : (Text → Bool) → ℕ → Text → ℕ → Tunnel → List Outgoing → List (List ℕ)
meant connected net id a t [] = []
meant connected net id a t (p ∷ ps) =
    if is_meant connected net id a t p
    then p.payload ∷ meant connected net id a t ps
    else meant connected net id a t ps

is_broadcast-has_ip4 :
    (net : ℕ) (dst : Ip)
    → is_broadcast net dst ≡ (has_ip4 (to4 dst) net || has_ip4 (to4 dst) 4294967295)
is_broadcast-has_ip4 net dst = same (to4 dst)
  where
    same :
        (o : Option ℕ)
        → (ip_equal o net || ip_equal o 0xffffffff) ≡ (has_ip4 o net || has_ip4 o 4294967295)
    same none = refl
    same (some b) = refl

module _ (id : Text) (a : ℕ) (t : Tunnel) (one : (ip : ℕ) → get ip t.by_ip ≡ some id → ip ≡ a) where
  leads-at : (ip : ℕ) → leads_to id (get ip t.by_ip) ≡ (leads_to id (get a t.by_ip) && eqb ip a)
  leads-at ip = elim (Bool-cases (eqb ip a)) [
    | inl same ↦
        ap (λ i. leads_to id (get i t.by_ip)) ((eqb_iff ip a).0 same)
        ∙ sym (and_true _)
        ∙ sym (ap (λ b. leads_to id (get a t.by_ip) && b) same)
    | inr other ↦
        elsewhere (get ip t.by_ip) refl other
        ∙ sym (and_false _)
        ∙ sym (ap (λ b. leads_to id (get a t.by_ip) && b) other)
  ]
    where
      and_true : (b : Bool) → b && true ≡ b
      and_true true = refl
      and_true false = refl

      and_false : (b : Bool) → b && false ≡ false
      and_false true = refl
      and_false false = refl

      elsewhere : (o : Option Text) → get ip t.by_ip ≡ o → eqb ip a ≡ false → leads_to id o ≡ false
      elsewhere none e h = refl
      elsewhere (some j) e h = elim (Bool-cases (j == id)) [
        | inr n ↦ n
        | inl y ↦
            let ip_a : ip ≡ a = one ip (e ∙ ap some ((text_eq_iff j id).0 y)) in
            absurd (ground (arith, h, ip_a))
      ]

  route-has_address :
      (dst : Ip) → leads_to id (route dst t) ≡ (leads_to id (get a t.by_ip) && has_address a dst)
  unfolding route
  route-has_address (v4 b) = leads-at b
  route-has_address (v6 b) = never (leads_to id (get a t.by_ip))
    where
      never : (b : Bool) → false ≡ b && false
      never true = refl
      never false = refl

  is_routed-is_meant :
      (connected : Text → Bool) (net : ℕ) (p : Outgoing)
      → is_routed connected net id a t p ≡ is_meant connected net id a t p
  is_routed-is_meant connected net p =
      let l = leads_to id (get a t.by_ip) in
      ap₂ (λ b r. if b then connected id && l else r) (is_broadcast-has_ip4 net p.dst)
        (route-has_address p.dst)
      ∙ swapped (has_ip4 (to4 p.dst) net || has_ip4 (to4 p.dst) 4294967295) (connected id) l
          (has_address a p.dst)
    where
      swapped : (b c l h : Bool) → (if b then c && l else l && h) ≡ (l && (if b then c else h))
      swapped true true true h = refl
      swapped true true false h = refl
      swapped true false true h = refl
      swapped true false false h = refl
      swapped false c l h = refl

  pub routed-meant :
      (connected : Text → Bool) (net : ℕ) (ps : List Outgoing)
      → routed connected net id a t ps ≡ meant connected net id a t ps
  routed-meant connected net [] = refl
  routed-meant connected net (p ∷ ps) =
      ap₂ (λ b l. if b then p.payload ∷ l else l) (is_routed-is_meant connected net p)
        (routed-meant connected net ps)
