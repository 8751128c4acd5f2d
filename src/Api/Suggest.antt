-- ===== src/Api/Suggest.antt =====
-- api/peers.go: the addresses that `GetAuthRequests` suggests.
use gravil.Base.{
  ℕ, ◌+◌, ◌<◌, ◌≡◌, refl, sym, subst, length-append, false, Option, List, [], ◌∷◌, ◌++◌, arith,
  Text, Dict, length, elem, text_key,
}
use gravil.Addr.{show_ip}
use gravil.Config.{KnownPeer}
use gravil.Config.Address.Next.{Holds, top, generate_next_ip_addr_free}
use gravil.Config.Address.Unique.{limit}
use gravil.Auth.{Env, or_empty}
use gravil.Api.{suggest}

module _ (env : Env) (peers : Dict Text KnownPeer) where
  -- Each address is none of those before it, and higher than every address of a peer.
  abbrev pub IsFreshList : List Text → List Text → Type 0
  IsFreshList given [] = Unit
  IsFreshList given (ip ∷ ips) =
      (elem ip given ≡ false)
      × ((a : ℕ) × (ip ≡ show_ip a) × ((b : ℕ) → Holds env.ipv6 env.vpn b peers → b < a))
      × IsFreshList (given ++ ip ∷ []) ips

  suggest-from :
      (given ids : List Text)
      → top env.ipv6 env.vpn peers given + (length given + length ids) + 1 < limit
      → IsFreshList given (suggest env peers given ids)
  unfolding suggest
  suggest-from given [] room = tt
  suggest-from given (id ∷ ids) room =
      let g = generate_next_ip_addr_free env.ipv6 env.vpn peers given (omega arith) in
      subst
        (λ (t : Option Text).
          IsFreshList given (or_empty t ∷ suggest env peers (given ++ or_empty t ∷ []) ids))
        (sym g.1)
        (
          g.2,
          (g.0, refl, g.5),
          suggest-from (given ++ show_ip g.0 ∷ []) ids
              (omega (arith, length-append given (show_ip g.0 ∷ []))),
        )

  -- While the address space lasts, the addresses that `GetAuthRequests` suggests are pairwise distinct,
  -- and each is higher than the address of every peer of the network.
  pub suggest-IsFreshList :
      (ids : List Text)
      → top env.ipv6 env.vpn peers [] + length ids + 1 < limit
      → IsFreshList [] (suggest env peers [] ids)
  suggest-IsFreshList ids room = suggest-from [] ids (omega arith)
