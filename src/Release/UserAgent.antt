-- ===== src/Release/UserAgent.antt =====
-- config/version.go: the user agent of a device reads back.
use gravil.Base.{
  ℕ, ◌≡◌, ◌≢◌, refl, ap, ◌∙◌, Bool, true, Option, none, some, [], ◌∷◌, ◌++◌, arith, Text,
}
use gravil.Release.{
  system_info, user_agent, user_agent_prefix, last_found, after_last, version_from_user_agent, cut,
  cut_prefix, trim_prefix, or_whole, system_of, system_info_from_user_agent,
}

-- The text does not have the rune.
abbrev pub Lacks : ℕ → Text → Type 0
Lacks sep [] = Unit
Lacks sep (c ∷ s) = (c ≢ sep) × Lacks sep s

after_last-none : (sep : ℕ) (s : Text) → Lacks sep s → after_last sep s ≡ none
unfolding after_last last_found
after_last-none sep [] h = refl
after_last-none sep (c ∷ s) h = rw (after_last-none sep s h.1) (ground (arith, h.0))

after_last-append : (sep : ℕ) (s t : Text) → Lacks sep t → after_last sep (s ++ sep ∷ t) ≡ some t
unfolding after_last last_found
after_last-append sep [] t h = rw (after_last-none sep t h) (ground arith)
after_last-append sep (c ∷ s) t h = rw (after_last-append sep s t h) refl

cut-append : (sep : ℕ) (s t : Text) → Lacks sep s → cut sep (s ++ sep ∷ t) ≡ (s, t, true)
unfolding cut
cut-append sep [] t h = ground arith
cut-append sep (c ∷ s) t h = rw (cut-append sep s t h.1) (ground (arith, h.0))

cut_prefix-append : (p s : Text) → cut_prefix p (p ++ s) ≡ some s
unfolding cut_prefix
cut_prefix-append [] s = refl
cut_prefix-append (c ∷ p) s = rw (cut_prefix-append p s) (ground arith)

Lacks-append : (sep : ℕ) (s t : Text) → Lacks sep s → Lacks sep t → Lacks sep (s ++ t)
Lacks-append sep [] t h k = k
Lacks-append sep (c ∷ s) t h k = (h.0, Lacks-append sep s t h.1 k)

-- System, architecture and version are read back from the user agent, where none of them has a slash
-- and the system has no dash.
pub user_agent-reads :
    (goos goarch version : Text)
    → Lacks 47 goos
    → Lacks 45 goos
    → Lacks 47 goarch
    → Lacks 47 version
    → (version_from_user_agent (user_agent (system_info goos goarch) version) ≡ version)
      × (system_info_from_user_agent (user_agent (system_info goos goarch) version)
          ≡ (goos, goarch))
unfolding version_from_user_agent system_info_from_user_agent trim_prefix system_of
user_agent-reads goos goarch version slash dash arch ver =
    let info = system_info goos goarch in
    let plain : Lacks 47 info = Lacks-append 47 goos (45 ∷ goarch) slash (omega arith, arch) in
    (
      rw (after_last-append 47 (user_agent_prefix ++ info) version ver) refl,
      ap (λ (o : Option Text). system_of (cut 47 (or_whole (user_agent info version) o)))
            (cut_prefix-append user_agent_prefix (info ++ 47 ∷ version))
          ∙ ap system_of (cut-append 47 info version plain)
          ∙ ap (λ (r : Text × Text × Bool). (r.0, r.1)) (cut-append 45 goos goarch dash),
    )
