-- ===== src/Cli/Examples.antt =====
-- Sorts that do what the commands rely on, and a command at a device with two peers.
use gravil.Base.{Bool, true, not, List, [], ◌++◌, ℕ, Text, text, text_key, filter}
use gravil.Api.Listing.{Net, KnownPeersResponse}

module _ {Stats Units : Type 0} where
  abbrev on : KnownPeersResponse Stats Units → Bool
  on r = r.connected

  abbrev off : KnownPeersResponse Stats Units → Bool
  off r = not r.connected

  -- A stable sort by one test.
  abbrev partition : List (KnownPeersResponse Stats Units) → List (KnownPeersResponse Stats Units)
  partition rs = filter on rs ++ filter off rs

-- A node that sees every peer as connected.
abbrev quiet : Net ℕ Text
quiet = record {
  user_agent = λ id. text "awl/linux-amd64/v1";
  is_connected = λ id. true;
  connections = λ id. [];
  stats = λ id. 0;
  in_units = λ n. text "0 B";
  latency = λ id. 0;
}

abbrev same_order : List Text → List Text
same_order ids = ids
