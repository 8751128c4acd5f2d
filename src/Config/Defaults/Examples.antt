-- ===== src/Config/Defaults/Examples.antt =====
-- config/other.go: a build for Linux, and the theorems at it.
use mathlib.Core.List.{Permᴰ}
use gravil.Base.{◌≡◌, refl, false, none, some, [], ◌∷◌, text, Text, Dict}
use gravil.Addr.{Network}
use gravil.Config.{Config, KnownPeer}
use gravil.Config.Alias.{aliases}
use gravil.Config.Examples.{conf, laptop}
use gravil.Config.Defaults.{System, fill_peers, set_defaults}
use gravil.Config.Defaults.Aliases.{NoRepeats, NoneEmpty, fill_peers-NoRepeats}
use gravil.Config.Defaults.Whole.{set_defaults_again}

abbrev default_network : Network
default_network = record { address = 0x0a420001; bits = 24 }

abbrev build : System
build = record {
  version = text "0.15.0";
  is_darwin = false;
  app_data_dir = text "/etc/anywherelan";
  parse_cidr = λ s. some default_network;
  ipv6 = λ s. none;
  trim_domain_name = λ s. s;
}

fill_peers-NoRepeats_example :
    NoRepeats (
      aliases
        (fill_peers build default_network [] ((text "A1", laptop) ∷ (text "B2", laptop) ∷ [])))
    × NoneEmpty (
        aliases
          (fill_peers build default_network [] ((text "A1", laptop) ∷ (text "B2", laptop) ∷ [])))
fill_peers-NoRepeats_example =
    fill_peers-NoRepeats build default_network ((text "A1", laptop) ∷ (text "B2", laptop) ∷ [])

-- Two peers without a name, which the second run meets the other way round.
abbrev both : Config
both = record conf { known_peers = (text "A1", laptop) ∷ (text "B2", laptop) ∷ [] }

abbrev turned : Dict Text KnownPeer → Dict Text KnownPeer
turned [] = []
turned (e ∷ []) = e ∷ []
turned (e ∷ f ∷ ps) = f ∷ e ∷ ps

turned-Perm : (ps : Dict Text KnownPeer) → Permᴰ ps (turned ps)
turned-Perm [] = Permᴰ.nil
turned-Perm (e ∷ []) = Permᴰ.cons refl Permᴰ.nil
turned-Perm (e ∷ f ∷ ps) = Permᴰ.swap refl refl

set_defaults_again_example :
    set_defaults build (record (set_defaults build both) {
      known_peers = turned (set_defaults build both).known_peers;
    })
    ≡ record (set_defaults build both) {
      known_peers = turned (set_defaults build both).known_peers;
    }
set_defaults_again_example =
    set_defaults_again build default_network refl both
      (turned (set_defaults build both).known_peers) refl
      (turned-Perm (set_defaults build both).known_peers)
