-- ===== src/Protocol/Frame.antt =====
-- protocol/protocol.go: a frame that was written is read back, however the stream cuts it.
use gravil.Base.{
  ℕ, ◌%◌, ◌≤◌, ◌<◌, ◌≡◌, refl, ap, ◌∙◌, List, [], ◌++◌, arith, length, take, drop, append_assoc,
  length-append,
}
use gravil.Protocol.Reader.{Stream, flat, read_full, read_full_from-flat}
use gravil.Protocol.{put_uint64, uint64, value, read_uint64, decode_uint64, append_packet_to_buf}

abbrev limit : ℕ
limit = 18446744073709551616

-- Eight big-endian bytes carry any uint64.
pub uint64-put_uint64 : (v : ℕ) → v < limit → uint64 0 (put_uint64 v) ≡ v
unfolding uint64 put_uint64
uint64-put_uint64 v h = omega arith

-- However the stream is cut into chunks, reading a uint64 returns the value that was written and
-- leaves exactly the bytes behind it.
pub read_uint64-put_uint64 :
    (v : ℕ) (behind : List ℕ) (s : Stream)
    → v < limit
    → flat s.chunks ≡ put_uint64 v ++ behind
    → (rest : List (List ℕ)) × (read_uint64 s
        ≡ value v (record { chunks = rest; ending = s.ending }))
      × (flat rest ≡ behind)
      × (length rest ≤ length s.chunks)
unfolding read_uint64 read_full
read_uint64-put_uint64 v behind s h e =
    let enough : 8 ≤ length (flat s.chunks) =
      omega (arith, ap length e, length-append (put_uint64 v) behind, eight) in
    let r = read_full_from-flat 8 [] s.chunks s.ending enough in
    let front : take 8 (flat s.chunks) ≡ put_uint64 v = ap (take 8) e ∙ front_of behind in
    (
      r.0,
      ap decode_uint64 r.1
          ∙ ap (λ bs. value (uint64 0 bs) (record { chunks = r.0; ending = s.ending })) front
          ∙ ap (λ k. value k (record { chunks = r.0; ending = s.ending })) (uint64-put_uint64 v h),
      r.2 ∙ ap (drop 8) e ∙ behind_of behind,
      r.3,
    )
  where
    eight : length (put_uint64 v) ≡ 8
    eight = unfold put_uint64 in refl

    front_of : (ys : List ℕ) → take 8 (put_uint64 v ++ ys) ≡ put_uint64 v
    front_of ys = unfold put_uint64 in refl

    behind_of : (ys : List ℕ) → drop 8 (put_uint64 v ++ ys) ≡ ys
    behind_of ys = unfold put_uint64 in refl

-- The frame of a packet: its length, then its bytes.
abbrev pub frame : List ℕ → List ℕ
frame packet = put_uint64 (length packet % limit) ++ packet

pub append_packet_to_buf-frame :
    (buf packet : List ℕ) → append_packet_to_buf buf packet ≡ buf ++ frame packet
unfolding append_packet_to_buf
append_packet_to_buf-frame buf packet = append_assoc buf (put_uint64 (length packet % limit)) packet
