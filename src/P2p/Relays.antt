-- ===== src/P2p/Relays.antt =====
-- p2p/p2p.go: which relays a sequence of calls of the peer source offers.
use gravil.Base.{
  ℕ, zero, suc, ◌+◌, ◌≤◌, ◌≡◌, inl, inr, sym, ap, ◌∙◌, List, [], ◌∷◌, ◌++◌, append_assoc,
  append-nil, arith, Text, ltb, length, length-take, take-append-drop, Bool-cases,
}
use gravil.P2p.{refilled, offer_relays}

-- What the calls send, one after the other, and what is left.
abbrev pub calls : List Text → List ℕ → List Text → List Text × List Text
calls all [] last = ([], last)
calls all (n ∷ ns) last =
    let (sent, left) = offer_relays n all last in
    (sent ++ (calls all ns left).0, (calls all ns left).1)

abbrev pub times : ℕ → List Text → List Text
times zero all = []
times (suc k) all = all ++ times k all

offer_relays-splits :
    (n : ℕ) (all last : List Text)
    → ((offer_relays n all last).0 ++ (offer_relays n all last).1 ≡ refilled all last)
      × (length (offer_relays n all last).0 ≤ n)
unfolding offer_relays
offer_relays-splits n all last = elim (Bool-cases (ltb (length (refilled all last)) n)) [
  | inl few ↦ rw few (
    take-append-drop (length (refilled all last)) (refilled all last),
    ground (arith, few, length-take (length (refilled all last)) (refilled all last)),
  )
  | inr many ↦
      rw many
        (take-append-drop n (refilled all last), omega (arith, length-take n (refilled all last)))
]

refilled-times : (all last : List Text) → (k : ℕ) × (refilled all last ≡ last ++ times k all)
refilled-times all [] = (1, sym (append-nil all))
refilled-times all (p ∷ ps) = (0, sym (append-nil (p ∷ ps)))

times-add : (j k : ℕ) (all : List Text) → times j all ++ times k all ≡ times (j + k) all
times-add zero k all = ap (λ n. times n all) {x = k} {y = 0 + k} (omega arith)
times-add (suc j) k all =
    append_assoc all (times j all) (times k all)
    ∙ ap (λ l. all ++ l) (times-add j k all)
    ∙ ap (λ n. times n all) {x = suc (j + k)} {y = suc j + k} (omega arith)

calls-from :
    (all : List Text) (ns : List ℕ) (last : List Text)
    → (k : ℕ) × ((calls all ns last).0 ++ (calls all ns last).1 ≡ last ++ times k all)
calls-from all [] last = (0, sym (append-nil last))
calls-from all (n ∷ ns) last =
    let sent = (offer_relays n all last).0 in
    let left = (offer_relays n all last).1 in
    let next = calls all ns left in
    let ih = calls-from all ns left in
    let more = refilled-times all last in
    (
      more.0 + ih.0,
      append_assoc sent next.0 next.1
          ∙ ap (λ l. sent ++ l) ih.1
          ∙ sym (append_assoc sent left (times ih.0 all))
          ∙ ap (λ l. l ++ times ih.0 all) ((offer_relays-splits n all last).0 ∙ more.1)
          ∙ append_assoc last (times more.0 all) (times ih.0 all)
          ∙ ap (λ l. last ++ l) (times-add more.0 ih.0 all),
    )

-- While the candidates stay the same, the calls offer them round after round, each in its turn and
-- none twice in a round: what they send, with what is left, is the list of candidates a number of
-- times. No call sends more than it was asked for.
pub calls-times :
    (all : List Text) (ns : List ℕ)
    → ((k : ℕ) × ((calls all ns []).0 ++ (calls all ns []).1 ≡ times k all))
      × ((n : ℕ) (last : List Text) → length (offer_relays n all last).0 ≤ n)
calls-times all ns = (calls-from all ns [], λ n last. (offer_relays-splits n all last).1)
