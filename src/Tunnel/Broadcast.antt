-- ===== src/Tunnel/Broadcast.antt =====
-- service/tunnel.go: the queue of one peer when a packet is offered to a peer, or to all of them.
use gravil.Base.{
  ℕ, zero, suc, ◌≡◌, inl, inr, refl, sym, ap, ap₂, ◌∙◌, Bool, true, false, Option, none, some, List,
  [], ◌∷◌, arith, Text, Dict, get, get-put, Distinct, text_key, nat_key, text_eq_iff, eqb_iff, ◌==◌,
  if◌then◌else◌, Bool-cases, Option-cases,
}
use gravil.Tunnel.{VpnPeer, Tunnel, offer, offer_to, broadcast}

abbrev pub leads_to : Text → Option Text → Bool
leads_to id none = false
leads_to id (some j) = j == id

pub offer_to-peers :
    (j id : Text) (x : List ℕ) (t : Tunnel) (q : VpnPeer)
    → get id t.peers ≡ some q
    → get id (offer_to j x (get j t.peers) t).peers ≡ some (if j == id then offer x q else q)
unfolding offer_to
offer_to-peers j id x t q e = elim (Option-cases (get j t.peers)) [
  | inl new ↦ ground (arith, new, e, text_eq_iff j id, ap (λ k. get k t.peers) {x = j} {y = id})
  | inr old ↦ ground (
    arith,
    old.1,
    e,
    text_eq_iff j id,
    ap (λ k. get k t.peers) {x = j} {y = id},
    get-put j id (offer x old.0) t.peers,
  )
]

pub offer_to-by_ip :
    (j : Text) (x : List ℕ) (o : Option VpnPeer) (t : Tunnel) → (offer_to j x o t).by_ip ≡ t.by_ip
unfolding offer_to
offer_to-by_ip j x none t = refl
offer_to-by_ip j x (some p) t = refl

-- How many entries of a list lead to the peer.
abbrev pub entries : Text → Dict ℕ Text → ℕ
entries id [] = 0
entries id ((ip, j) ∷ ips) = if j == id then suc (entries id ips) else entries id ips

abbrev pub again : ℕ → List ℕ → VpnPeer → VpnPeer
again zero x q = q
again (suc n) x q = again n x (offer x q)

pub broadcast-peers :
    (connected : Text → Bool) (id : Text) (x : List ℕ) (ips : Dict ℕ Text) (t : Tunnel)
    (q : VpnPeer)
    → get id t.peers ≡ some q
    → get id (broadcast connected x ips t).peers
      ≡ some (again (if connected id then entries id ips else 0) x q)
unfolding broadcast
broadcast-peers connected id x [] t q e = elim (Bool-cases (connected id)) [
  | inl c ↦ rw c e
  | inr c ↦ rw c e
]
broadcast-peers connected id x ((ip, j) ∷ ips) t q e =
    let sent = offer_to-peers j id x t q e in
    let next = offer_to j x (get j t.peers) t in
    let go : (b : Bool)
        → connected j ≡ b
        → get id (broadcast connected x ((ip, j) ∷ ips) t).peers
          ≡ get id (broadcast connected x ips (if b then next else t)).peers =
      λ b cj. ap (λ c. get id (broadcast connected x ips (if c then next else t)).peers) cj in
    let count : (b c : Bool)
        → (j == id) ≡ b
        → connected id ≡ c
        → some (again (if c then (if b then suc (entries id ips) else entries id ips) else 0) x q)
          ≡ some (again (if connected id then entries id ((ip, j) ∷ ips) else 0) x q) =
      λ b c s k. sym (
        ap₂
          (λ b c.
            some
              (again (if c then (if b then suc (entries id ips) else entries id ips) else 0) x q))
          s k) in
    elim (Bool-cases (connected j)) [
      | inl cj ↦ elim (Bool-cases (j == id)) [
        | inl same ↦
            let ci : connected id ≡ true = ap connected (sym ((text_eq_iff j id).0 same)) ∙ cj in
            go true cj
            ∙ broadcast-peers connected id x ips next (offer x q)
                (sent ∙ ap (λ b. some (if b then offer x q else q)) same)
            ∙ ap (λ b. some (again (if b then entries id ips else 0) x (offer x q))) ci
            ∙ count true true same ci
        | inr other ↦
            go true cj
            ∙ broadcast-peers connected id x ips next q
                (sent ∙ ap (λ b. some (if b then offer x q else q)) other)
            ∙ count false (connected id) other refl
      ]
      | inr dj ↦ elim (Bool-cases (j == id)) [
        | inl same ↦
            let di : connected id ≡ false = ap connected (sym ((text_eq_iff j id).0 same)) ∙ dj in
            go false dj
            ∙ broadcast-peers connected id x ips t q e
            ∙ ap (λ b. some (again (if b then entries id ips else 0) x q)) di
            ∙ count true false same di
        | inr other ↦
            go false dj
            ∙ broadcast-peers connected id x ips t q e
            ∙ count false (connected id) other refl
      ]
    ]

pub broadcast-by_ip :
    (connected : Text → Bool) (x : List ℕ) (ips : Dict ℕ Text) (t : Tunnel)
    → (broadcast connected x ips t).by_ip ≡ t.by_ip
unfolding broadcast
broadcast-by_ip connected x [] t = refl
broadcast-by_ip connected x ((ip, j) ∷ ips) t = elim (Bool-cases (connected j)) [
  | inl cj ↦
      ap (λ b. (broadcast connected x ips (if b then offer_to j x (get j t.peers) t else t)).by_ip)
        cj
      ∙ broadcast-by_ip connected x ips (offer_to j x (get j t.peers) t)
      ∙ offer_to-by_ip j x (get j t.peers) t
  | inr dj ↦
      ap (λ b. (broadcast connected x ips (if b then offer_to j x (get j t.peers) t else t)).by_ip)
        dj
      ∙ broadcast-by_ip connected x ips t
]

-- At most one entry leads to a peer that has one address.
pub entries-one :
    (id : Text) (a : ℕ) (ips : Dict ℕ Text)
    → Distinct ips
    → ((ip : ℕ) → get ip ips ≡ some id → ip ≡ a)
    → entries id ips ≡ (if leads_to id (get a ips) then 1 else 0)
unfolding get
entries-one id a [] d h = refl
entries-one id a ((ip, j) ∷ ips) d h =
    let rest : (i : ℕ) → get i ips ≡ some id → i ≡ a =
      λ i e. h i (ground (arith, e, d.0, eqb_iff ip i, ap (λ k. get k ips) {x = ip} {y = i})) in
    let ih = entries-one id a ips d.1 rest in
    ground (
      arith,
      ih,
      d.0,
      h ip,
      rest ip,
      rest a,
      eqb_iff ip a,
      text_eq_iff j id,
      ap (λ k. get k ips) {x = ip} {y = a},
    )
