-- ===== src/Auth/Examples.antt =====
-- service/auth_status.go: a configuration with one peer, a stranger, and the theorems at them.
use gravil.Base.{◌≡◌, ◌||◌, refl, true, false, none, some, [], Text, text, text_key, text_eq, get}
use gravil.Config.Peers.{get_peer, get_blocked_peer}
use gravil.Config.Examples.{store, laptop}
use gravil.Protocol.{PeerStatusInfo, AuthPeer, AuthPeerResponse}
use gravil.Auth.{Env, Auth, add_peer}
use gravil.Auth.Exchange.{is_known, is_blocked}
use gravil.Auth.Adding.{IsResult, entry, IsFree, IsTrap, add_peer-IsResult}

abbrev pub env : Env
env = record {
  trim_space = λ s. s;
  is_space = λ r. false;
  to_lower = λ s. s;
  ipv6 = λ s. none;
  vpn = record { address = 0x0a420001; bits = 24 };
  now = 7;
}

abbrev pub auth : Auth
auth = record { store = store; ingoing = []; outgoing = []; requests = [] }

abbrev hello : PeerStatusInfo
hello = record {
  name = text "laptop";
  declined = false;
  allow_using_as_exit_node = true;
  using_peer_id = [];
}

b2_stranger : is_known (text "B2") auth ≡ false
unfolding get_peer get text_eq
b2_stranger = refl

b2_not_blocked : is_blocked (text "B2") auth ≡ false
unfolding get_blocked_peer get
b2_not_blocked = refl

a1_known : get_peer store.conf (text "A1") ≡ some laptop
unfolding get_peer get text_eq
a1_known = refl

a1_settled : is_known (text "A1") auth || is_blocked (text "A1") auth ≡ true
unfolding get_peer get text_eq
a1_settled = refl

abbrev req : AuthPeer
req = record { name = text "b" }

a1_not_blocked : is_blocked (text "A1") auth ≡ false
unfolding get_blocked_peer get
a1_not_blocked = refl

abbrev refusal : AuthPeerResponse
refusal = record { confirmed = false; declined = true }

abbrev b2 : Text
b2 = text "B2"

add_peer-IsResult_example :
    IsResult
      (entry env b2 b2 b2 false [] auth)
      auth
      (IsFree env b2 b2 b2 false [] auth)
      (IsTrap env b2 b2 b2 false [] auth)
      (add_peer env b2 b2 b2 false [] auth)
add_peer-IsResult_example = add_peer-IsResult env b2 b2 b2 false [] auth
