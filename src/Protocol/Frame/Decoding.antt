-- ===== src/Protocol/Frame/Decoding.antt =====
-- `FrameDecoder::Next` on the bytes of a stream: whole frames, cut frames and damaged frames.
use pulse_log.Base.{
  ℕ, ◌+◌, ◌-◌, ◌<◌, ◌≤◌, ◌≡◌, ◌∙◌, refl, ap, sym, arith, true, false, ltb, length, take, drop,
  take-append, take-append_more, drop-append, length-append, length-take, is_empty, [], ◌∷◌, ◌++◌,
  if◌then◌else◌, inl, inr, Bool-cases, ltb-ge,
}
use mathlib.Core.List.{append_assoc}
use pulse_log.Base.Keys.{Bytes}
use pulse_log.Base.Status.{error_is_ok, value_of_result}
use pulse_log.Protocol.Codec.{u16_mod, u32_mod, u64_mod}
use pulse_log.Protocol.Crc.{crc32c}
use pulse_log.Protocol.Crc.Slices.{crc32c-lt}
use pulse_log.Protocol.Opcode.{is_known}
use pulse_log.Protocol.Frame.{
  FrameHeader, encode_frame_header, decode_frame_header, complete_header, encode_frame, Frame,
  need_more, frame, FrameDecoder, check_payload, next_with, next,
}
use pulse_log.Protocol.Frame.Layout.{
  FitsHeader, length-encode_frame_header, decode_frame_header-encode_frame_header, same,
}

-- A frame that the decoder takes: its header is of this version, and the payload is within the limit.
abbrev pub Sendable : FrameHeader → Bytes → FrameDecoder → Type 0
Sendable h payload decoder =
    (h.version ≡ 1)
    × (is_known h.opcode ≡ true)
    × (h.request_id < u64_mod)
    × (h.flags < u16_mod)
    × (length payload < u32_mod)
    × (length payload ≤ decoder.max_payload)

abbrev pub IsOpen : FrameDecoder → Type 0
IsOpen decoder = error_is_ok decoder.error_of_stream.code ≡ true

abbrev pub framed : FrameHeader → Bytes → Frame
framed h payload = record {
  header = complete_header h payload;
  payload = payload;
  total_size = 32 + length payload;
}

check_payload_own :
    (h : FrameHeader) (payload : Bytes) (decoder : FrameDecoder)
    → (complete_header h payload).payload_len ≡ length payload
    → check_payload (complete_header h payload) payload decoder
      ≡ (frame (framed h payload), decoder)
unfolding check_payload complete_header
check_payload_own h [] decoder e = refl
check_payload_own h (x ∷ xs) decoder e = simp (same (crc32c (x ∷ xs)), e)

module _ (h : FrameHeader) (payload : Bytes) (decoder : FrameDecoder)
    (ok : Sendable h payload decoder) where
  pub payload_len_lem : (complete_header h payload).payload_len ≡ length payload
  unfolding complete_header
  payload_len_lem = omega (arith, ok.4)

  payload_crc-lt : (complete_header h payload).payload_crc < u32_mod
  unfolding complete_header
  payload_crc-lt = elim (Bool-cases (is_empty payload)) [
    | inl e ↦ rw e (omega arith)
    | inr e ↦ rw e (crc32c-lt payload)
  ]

  complete_header-FitsHeader : FitsHeader (complete_header h payload)
  complete_header-FitsHeader =
      unfold complete_header in
      (ok.0, ok.1, ok.2, omega (arith, ok.4, payload_len_lem), ok.3, payload_crc-lt)

  -- The header of the frame, whatever follows it.
  decode_start :
      (rest : Bytes)
      → decode_frame_header decoder.max_payload
          (encode_frame_header (complete_header h payload) ++ rest)
        ≡ value_of_result (complete_header h payload)
  decode_start rest =
      decode_frame_header-encode_frame_header (complete_header h payload) rest decoder.max_payload
        complete_header-FitsHeader (omega (arith, ok.5, payload_len_lem))

  abbrev pub header_bytes : Bytes
  header_bytes = encode_frame_header (complete_header h payload)

  pub next_start :
      (rest : Bytes)
      → IsOpen decoder
      → next (encode_frame_header (complete_header h payload) ++ rest) decoder ≡ (
          if ltb (length rest) (length payload)
          then (need_more, decoder)
          else check_payload (complete_header h payload) (take (length payload) rest) decoder)
  unfolding next next_with
  next_start rest alive =
      let long : length (header_bytes ++ rest) ≡ 32 + length rest = omega (
        arith,
        length-append header_bytes rest,
        length-encode_frame_header (complete_header h payload) rest,
      ) in
      let whole : ltb (length (header_bytes ++ rest)) 32 ≡ false = ground (arith, long) in
      let test : ltb (length (header_bytes ++ rest)) (32 + length payload)
          ≡ ltb (length rest) (length payload) =
        ground (arith, long) in
      let after : drop 32 (header_bytes ++ rest) ≡ rest =
        ap (λ (k : ℕ). drop k (header_bytes ++ rest))
          (sym (length-encode_frame_header (complete_header h payload) rest))
        ∙ drop-append header_bytes rest in
      simp (alive, whole, decode_start rest, test, after, payload_len_lem)

  -- A frame that was encoded is decoded, with its payload, and the bytes behind it do not matter.
  pub next-encode_frame :
      (rest : Bytes)
      → IsOpen decoder
      → next (encode_frame h payload ++ rest) decoder ≡ (frame (framed h payload), decoder)
  unfolding encode_frame
  next-encode_frame rest alive =
      let all : ltb (length (payload ++ rest)) (length payload) ≡ false =
        ground (arith, length-append payload rest) in
      ap (λ (input : Bytes). next input decoder) (append_assoc header_bytes payload rest)
      ∙ next_start (payload ++ rest) alive
      ∙ simp (all, take-append payload rest) (check_payload_own h payload decoder payload_len_lem)

  waits :
      (input : Bytes)
      → IsOpen decoder
      → ltb (length input) 32 ≡ true
      → next input decoder ≡ (need_more, decoder)
  unfolding next
  waits input alive few = simp (alive, few)

  cut_behind :
      (n : ℕ) → 32 ≤ n → take n (header_bytes ++ payload) ≡ header_bytes ++ take (n - 32) payload
  cut_behind n h32 =
      ap (λ (k : ℕ). take k (header_bytes ++ payload)) {x = n} {y = length header_bytes + (n - 32)}
        (omega (arith, length-encode_frame_header (complete_header h payload) []))
      ∙ take-append_more (n - 32) header_bytes payload

  -- While a frame has not arrived in full, the decoder waits, and stays as it is.
  pub next-take :
      (n : ℕ)
      → n < 32 + length payload
      → IsOpen decoder
      → next (take n (encode_frame h payload)) decoder ≡ (need_more, decoder)
  unfolding encode_frame
  next-take n cut alive = elim (Bool-cases (ltb n 32)) [
    | inl short ↦
        let few : ltb (length (take n (encode_frame h payload))) 32 ≡ true =
          ground (arith, length-take n (encode_frame h payload)) in
        waits (take n (encode_frame h payload)) alive few
    | inr long ↦
        let more : ltb (length (take (n - 32) payload)) (length payload) ≡ true =
          ground (arith, length-take (n - 32) payload) in
        ap (λ (input : Bytes). next input decoder) (cut_behind n (ltb-ge n 32 long))
        ∙ next_start (take (n - 32) payload) alive
        ∙ simp more
  ]
