-- ===== src/Release/Channels.antt =====
-- update/update.go: which channels are used for updates.
use gravil.Base.{
  ◌≡◌, refl, sym, ap, ap₂, ◌∙◌, Bool, true, false, Option, none, some, List, [], ◌∷◌, ◌++◌,
  append-nil, arith, Text, text_key, elem, ◌==◌, if◌then◌else◌, Bool-cases, inl, inr,
}
use gravil.Config.Peers.{is_empty}
use gravil.Release.{Channel, setup_channels, with_custom, channels}

-- The names of the channels that are used.
abbrev pub used : List Channel → List (Option Text)
used [] = []
used (ch ∷ chs) = if ch.is_used then ch.name ∷ used chs else used chs

-- The channels down to the lowest one, in the order of their priority.
abbrev pub down_to : Text → List Text → List (Option Text)
down_to lowest [] = []
down_to lowest (ch ∷ chs) = if ch == lowest then some ch ∷ [] else some ch ∷ down_to lowest chs

used-append : (xs ys : List Channel) → used (xs ++ ys) ≡ used xs ++ used ys
used-append [] ys = refl
used-append (x ∷ xs) ys = ground (arith, used-append xs ys)

setup_channels-found :
    (lowest : Text) (chs : List Text)
    → (used (setup_channels lowest true chs).0 ≡ []) × ((setup_channels lowest true chs).1 ≡ true)
unfolding setup_channels
setup_channels-found lowest [] = (refl, refl)
setup_channels-found lowest (ch ∷ chs) = elim (Bool-cases (ch == lowest)) [
  | inl same ↦ rw same (setup_channels-found lowest chs)
  | inr other ↦ rw other (setup_channels-found lowest chs)
]

setup_channels-used :
    (lowest : Text) (chs : List Text)
    → (used (setup_channels lowest false chs).0 ≡ down_to lowest chs)
      × ((setup_channels lowest false chs).1 ≡ elem lowest chs)
unfolding setup_channels elem
setup_channels-used lowest [] = (refl, refl)
setup_channels-used lowest (ch ∷ chs) = elim (Bool-cases (ch == lowest)) [
  | inl same ↦ let r = setup_channels-found lowest chs in rw same (ap (◌∷◌ (some ch)) r.0, r.1)
  | inr other ↦ let r = setup_channels-used lowest chs in rw other (ap (◌∷◌ (some ch)) r.0, r.1)
]

with_custom-used :
    (lowest : Text) (r : List Channel × Bool)
    → used (with_custom lowest r) ≡ used r.0 ++ (if r.1 then [] else some lowest ∷ [])
with_custom-used lowest (chs, true) = sym (append-nil (used chs))
with_custom-used lowest (chs, false) =
    used-append chs ((record { name = some lowest; is_used = true }) ∷ [])

-- Without a lowest channel only releases are used; else releases and the channels down to the lowest
-- one, and this one also where it is none of the program's own.
pub channels-used :
    (lowest : Text) (chs : List Text)
    → used (channels lowest chs)
      ≡ none
        ∷ (if is_empty lowest
            then []
            else down_to lowest chs ++ (if elem lowest chs then [] else some lowest ∷ []))
unfolding channels
channels-used lowest chs = elim (Bool-cases (is_empty lowest)) [
  | inl missing ↦
      let r = setup_channels-found lowest chs in
      rw missing (
        ap (◌∷◌ none) (
          with_custom-used lowest (setup_channels lowest true chs)
          ∙ ap₂ (λ (l : List (Option Text)) (b : Bool). l ++ (if b then [] else some lowest ∷ []))
              r.0 r.1))
  | inr named ↦
      let r = setup_channels-used lowest chs in
      rw named (
        ap (◌∷◌ none) (
          with_custom-used lowest (setup_channels lowest false chs)
          ∙ ap₂ (λ (l : List (Option Text)) (b : Bool). l ++ (if b then [] else some lowest ∷ []))
              r.0 r.1))
]
