-- ===== src/Tunnel/Swap.antt =====
-- service/tunnel.go: a peer that takes the address of a peer which the same refresh removes.
use gravil.Base.{text_key, nat_key}
