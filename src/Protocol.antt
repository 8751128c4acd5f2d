-- ===== src/Protocol.antt =====
-- protocol/protocol.go: the length-prefixed frames of the tunnel protocol, the messages of the
-- status and auth protocols, and the streams that carry them. The JSON encoding of a message is
-- the standard library's.
pub mod Reader
pub mod Frame
pub mod Examples
use gravil.Base.{
  ℕ, ◌+◌, ◌*◌, ◌/◌, ◌%◌, ◌^◌, Bool, List, [], ◌∷◌, ◌++◌, length, Text, Option, some, none, true,
  false,
}
use Reader.{Stream, Full, ok, unexpected_eof, eof, failed, read_full}

pub record PeerStatusInfo : Type 0 where
  pub name : Text
  pub declined : Bool
  pub allow_using_as_exit_node : Bool
  pub using_peer_id : Text

pub record AuthPeer : Type 0 where
  pub name : Text

pub record AuthPeerResponse : Type 0 where
  pub confirmed : Bool
  pub declined : Bool

-- `binary.BigEndian.PutUint64` and `binary.BigEndian.Uint64`, over eight bytes.
unfoldable pub put_uint64 : ℕ → List ℕ
put_uint64 v =
    (v / 2 ^ 56 % 256)
    ∷ (v / 2 ^ 48 % 256)
    ∷ (v / 2 ^ 40 % 256)
    ∷ (v / 2 ^ 32 % 256)
    ∷ (v / 2 ^ 24 % 256)
    ∷ (v / 2 ^ 16 % 256)
    ∷ (v / 2 ^ 8 % 256)
    ∷ (v % 256)
    ∷ []

unfoldable pub uint64 : ℕ → List ℕ → ℕ
uint64 acc [] = acc
uint64 acc (b ∷ bs) = uint64 (acc * 256 + b) bs

-- The value and the rest of the stream, or the error of `io.ReadFull`. After a full read `n` is 8,
-- so the second error of the source cannot occur.
pub data Uint64Read : Type 0 where
  value : ℕ → Stream → Uint64Read
  error : Full → Uint64Read

unfoldable pub decode_uint64 : Full × Stream → Uint64Read
unfolding uint64
decode_uint64 (ok bs, rest) = value (uint64 0 bs) rest
decode_uint64 (eof, rest) = error eof
decode_uint64 (unexpected_eof, rest) = error unexpected_eof
decode_uint64 (failed, rest) = error failed

unfoldable pub read_uint64 : Stream → Uint64Read
unfolding decode_uint64
read_uint64 s = decode_uint64 (read_full 8 [] s)

-- The header is `uint64(len(packet))`.
unfoldable pub append_packet_to_buf : List ℕ → List ℕ → List ℕ
unfolding put_uint64
append_packet_to_buf buf packet = (buf ++ put_uint64 (length packet % 2 ^ 64)) ++ packet
