-- ===== src/Addr/RoundTrip.antt =====
-- net: an IPv4 address that is printed reads back.
use gravil.Base.{
  ℕ, ◌+◌, ◌-◌, ◌*◌, ◌/◌, ◌%◌, ◌^◌, ◌≤◌, ◌<◌, ◌≡◌, ◌⊎◌, refl, sym, ap, ◌∙◌, Option, some, [], ◌∷◌,
  ◌++◌, arith, Text, ltb, Bool-cases, inl, inr, append-nil,
}
use gravil.Addr.{
  v4, and_to4, parse_as, tagged, parse_fields, parse_ipv4, parse_ip, parse_ip4, show_byte, show_ip,
  form, dotted,
}

digit :
    (field val n acc d v' n' : ℕ) (s : Text)
    → d < 10
    → (n ≡ 0) ⊎ (0 < val)
    → val * 10 + d ≡ v'
    → v' ≤ 255
    → n + 1 ≡ n'
    → parse_fields field val n acc ((48 + d) ∷ s) ≡ parse_fields field v' n' acc s
unfolding parse_fields
digit field val n acc d v' n' s h lead e small f =
    let e' : val * 10 + (48 + d - 48) ≡ v' = omega arith in rw (e', f) (ground arith)

dot :
    (field val n acc : ℕ) (s : Text)
    → 0 < n
    → field < 3
    → parse_fields field val n acc (46 ∷ s) ≡ parse_fields (field + 1) 0 0 (acc * 256 + val) s
unfolding parse_fields
dot field val n acc s h f = ground arith

-- The digits of a byte are read as its value.
byte :
    (field acc b : ℕ) (s : Text)
    → b < 256
    → (n : ℕ) × (parse_fields field 0 0 acc (show_byte b ++ s) ≡ parse_fields field b n acc s)
      × (0 < n)
unfolding show_byte
byte field acc b s h = elim (Bool-cases (ltb b 10)) [
  | inl one ↦ (
    1,
    rw one (digit field 0 0 acc b b 1 s (ground arith) (inl refl) (omega arith) (omega arith) refl),
    omega arith,
  )
  | inr more ↦ elim (Bool-cases (ltb b 100)) [
    | inl two ↦ (
      2,
      rw (more, two)
          (digit field 0 0 acc (b / 10) (b / 10) 1 _ (ground arith) (inl refl) (omega arith)
              (omega arith) refl
            ∙ digit field (b / 10) 1 acc (b % 10) b 2 s (omega arith) (inr (ground arith))
                (omega arith) (omega arith) refl),
      omega arith,
    )
    | inr three ↦ (
      3,
      rw (more, three)
          (digit field 0 0 acc (b / 100) (b / 100) 1 _ (omega arith) (inl refl) (omega arith)
              (omega arith) refl
            ∙ digit field (b / 100) 1 acc (b / 10 % 10) (b / 10) 2 _ (omega arith)
                (inr (ground arith)) (omega arith) (omega arith) refl
            ∙ digit field (b / 10) 2 acc (b % 10) b 3 s (omega arith) (inr (ground arith))
                (omega arith) (omega arith) refl),
      omega arith,
    )
  ]
]

-- One field with the dot behind it.
field_dot :
    (field acc b acc' : ℕ) (s : Text)
    → b < 256
    → field < 3
    → acc * 256 + b ≡ acc'
    → parse_fields field 0 0 acc (show_byte b ++ 46 ∷ s) ≡ parse_fields (field + 1) 0 0 acc' s
field_dot field acc b acc' s h f e =
    let r = byte field acc b (46 ∷ s) h in
    r.1 ∙ dot field b r.0 acc s r.2 f ∙ ap (λ a. parse_fields (field + 1) 0 0 a s) e

last_field : (acc b : ℕ) → b < 256 → parse_fields 3 0 0 acc (show_byte b) ≡ some (acc * 256 + b)
last_field acc b h =
    let r = byte 3 acc b [] h in
    ap (parse_fields 3 0 0 acc) (sym (append-nil (show_byte b))) ∙ r.1 ∙ ended r.0 r.2
  where
    ended : (n : ℕ) → 0 < n → parse_fields 3 b n acc [] ≡ some (acc * 256 + b)
    ended n p = unfold parse_fields in ground arith

abbrev limit : ℕ
limit = 4294967296

-- Every IPv4 address that is printed is read back.
pub parse_ipv4-show_ip : (a : ℕ) → a < limit → parse_ipv4 (show_ip a) ≡ some a
unfolding parse_ipv4 show_ip
parse_ipv4-show_ip a h =
    field_dot 0 0 (a / 2 ^ 24 % 256) (a / 2 ^ 24) _ (omega arith) (omega arith) (omega arith)
    ∙ field_dot 1 (a / 2 ^ 24) (a / 2 ^ 16 % 256) (a / 2 ^ 16) _ (omega arith) (omega arith)
        (omega arith)
    ∙ field_dot 2 (a / 2 ^ 16) (a / 2 ^ 8 % 256) (a / 2 ^ 8) _ (omega arith) (omega arith)
        (omega arith)
    ∙ last_field (a / 2 ^ 8) (a % 256) (omega arith)
    ∙ ap some (omega arith)

form-show_byte : (b : ℕ) (s : Text) → b < 256 → form (show_byte b ++ 46 ∷ s) ≡ dotted
unfolding form show_byte
form-show_byte b s h = ground arith

-- So it is by the general reader, whatever it does with IPv6.
pub parse_ip4-show_ip :
    (ipv6 : Text → Option ℕ) (a : ℕ) → a < limit → parse_ip4 ipv6 (show_ip a) ≡ some a
parse_ip4-show_ip ipv6 a h =
    let f : form (show_ip a) ≡ dotted =
      unfold show_ip in form-show_byte (a / 2 ^ 24 % 256) _ (omega arith) in
    unfold parse_ip4 in
    ap (λ k. and_to4 (parse_as k ipv6 (show_ip a))) f
    ∙ ap (λ o. and_to4 (tagged v4 o)) (parse_ipv4-show_ip a h)

pub show_ip-injective : (a b : ℕ) → a < limit → b < limit → show_ip a ≡ show_ip b → a ≡ b
show_ip-injective a b ha hb e =
    let read : some a ≡ some b =
      sym (parse_ipv4-show_ip a ha) ∙ ap parse_ipv4 e ∙ parse_ipv4-show_ip b hb in
    cc

pub parse_ip-show_ip :
    (ipv6 : Text → Option ℕ) (a : ℕ) → a < limit → parse_ip ipv6 (show_ip a) ≡ some (v4 a)
unfolding parse_ip
parse_ip-show_ip ipv6 a h =
    let f : form (show_ip a) ≡ dotted =
      unfold show_ip in form-show_byte (a / 2 ^ 24 % 256) _ (omega arith) in
    ap (λ k. parse_as k ipv6 (show_ip a)) f ∙ ap (tagged v4) (parse_ipv4-show_ip a h)
