-- ===== src/Protocol/Frame/Errors.antt =====
-- An error closes the decoder, and a damaged payload is an error.
use pulse_log.Base.{
  ℕ, ◌+◌, ◌<◌, ◌≡◌, ◌≢◌, ◌==◌, ==_iff, ◌||◌, ◌&&◌, ◌∙◌, refl, ap, sym, subst, arith, Bool, true,
  false, not, ltb, length, take, drop, take-append, length-append, is_empty, [], ◌∷◌, ◌++◌, inl,
  inr, Bool-cases, Option, none, some,
}
use mathlib.Core.Bool.{false≢true}
use pulse_log.Base.Keys.{Bytes}
use pulse_log.Base.Types.{ErrorCode}
use pulse_log.Base.Status.{error_is_ok, Result, failed_with, value_of_result}
use pulse_log.Protocol.Codec.Fields.{AreBytes}
use pulse_log.Protocol.Crc.{crc32c}
use pulse_log.Protocol.Crc.Damage.{crc32c_damage}
use pulse_log.Protocol.Opcode.{OpCode, opcode_of_number}
use pulse_log.Protocol.Frame.{
  FrameHeader, encode_frame_header, decode_frame_header, decode_known, decode_sizes, field_at,
  frame_magic, complete_header, FrameState, need_more, frame, error, FrameDecoder, check_payload,
  next_with, next,
}
use pulse_log.Protocol.Frame.Decoding.{Sendable, IsOpen, next_start}

-- A failure carries the status of an error.
abbrev Fails : {A : Type 0} → Result A → Type 0
Fails (failed_with status) = error_is_ok status.code ≡ false
Fails (value_of_result a) = Unit

decode_known-Fails :
    (max_payload : ℕ) (src : Bytes) (version raw : ℕ) (op : Option OpCode)
    → Fails (decode_known max_payload src version raw op)
unfolding decode_sizes
decode_known-Fails max_payload src version raw none = refl
decode_known-Fails max_payload src version raw (some op) =
    elim (Bool-cases (ltb max_payload (field_at 16 4 src))) [ inl e ↦ rw e refl | inr e ↦ rw e tt ]

decode_frame_header-Fails :
    (max_payload : ℕ) (src : Bytes) → Fails (decode_frame_header max_payload src)
unfolding decode_frame_header
decode_frame_header-Fails max_payload src = elim (Bool-cases (field_at 0 4 src == frame_magic)) [
  | inr e ↦ rw e refl
  | inl magic ↦ elim (Bool-cases (field_at 28 4 src == crc32c (take 28 src))) [
    | inr e ↦ rw (magic, e) refl
    | inl crc ↦ elim (Bool-cases (field_at 22 2 src == 0)) [
      | inr e ↦ rw (magic, crc, e) refl
      | inl reserved ↦ elim (Bool-cases (ltb (field_at 4 2 src) 1 || ltb 1 (field_at 4 2 src))) [
        | inl e ↦ rw (magic, crc, reserved, e) refl
        | inr version ↦
            rw (magic, crc, reserved, version)
              (decode_known-Fails max_payload src (field_at 4 2 src) (field_at 6 2 src)
                (opcode_of_number (field_at 6 2 src)))
      ]
    ]
  ]
]

abbrev is_error : FrameState → Bool
is_error error = true
is_error need_more = false
is_error (frame f) = false

abbrev Closes : FrameState × FrameDecoder → Type 0
Closes (state, decoder) = is_error state ≡ true → error_is_ok decoder.error_of_stream.code ≡ false

check_payload-Closes :
    (header : FrameHeader) (payload : Bytes) (decoder : FrameDecoder)
    → Closes (check_payload header payload decoder)
unfolding check_payload
check_payload-Closes header payload decoder =
    elim (Bool-cases (not (is_empty payload) && not (crc32c payload == header.payload_crc))) [
      | inl bad ↦ rw bad (λ h. refl)
      | inr good ↦ elim (Bool-cases (is_empty payload && not (header.payload_crc == 0))) [
        | inl bad ↦ rw (good, bad) (λ h. refl)
        | inr fine ↦ rw (good, fine) (λ h. absurd (false≢true h))
      ]
    ]

next_with-Closes :
    (r : Result FrameHeader) (input : Bytes) (decoder : FrameDecoder)
    → Fails r
    → Closes (next_with r input decoder)
unfolding next_with
next_with-Closes (failed_with status) input decoder f = λ h. f
next_with-Closes (value_of_result header) input decoder f =
    elim (Bool-cases (ltb (length input) (32 + header.payload_len))) [
      | inl e ↦ rw e (λ h. absurd (false≢true h))
      | inr e ↦ rw e (check_payload-Closes header (take header.payload_len (drop 32 input)) decoder)
    ]

next-Closes : (input : Bytes) (decoder : FrameDecoder) → Closes (next input decoder)
unfolding next
next-Closes input decoder = elim (Bool-cases (error_is_ok decoder.error_of_stream.code)) [
  | inl alive ↦ elim (Bool-cases (ltb (length input) 32)) [
    | inl few ↦ rw (alive, few) (λ h. absurd (false≢true h))
    | inr many ↦
        rw (alive, many)
          (next_with-Closes (decode_frame_header decoder.max_payload input) input decoder
            (decode_frame_header-Fails decoder.max_payload input))
  ]
  | inr closed ↦ rw closed (λ h. closed)
]

next_when_closed :
    (input : Bytes) (decoder : FrameDecoder)
    → error_is_ok decoder.error_of_stream.code ≡ false
    → next input decoder ≡ (error, decoder)
unfolding next
next_when_closed input decoder closed = simp closed

-- After an error every later input is answered with an error, and the first error is kept.
pub next_after_error :
    (input later : Bytes) (decoder : FrameDecoder)
    → (next input decoder).0 ≡ error
    → next later (next input decoder).1 ≡ (error, (next input decoder).1)
next_after_error input later decoder h =
    next_when_closed later (next input decoder).1 (next-Closes input decoder (ap is_error h))

check_payload_damage :
    (header : FrameHeader) (payload : Bytes) (decoder : FrameDecoder)
    → is_empty payload ≡ false
    → crc32c payload ≢ header.payload_crc
    → ((check_payload header payload decoder).0 ≡ error)
      × ((check_payload header payload decoder).1.error_of_stream.code ≡ ErrorCode.corruption)
unfolding check_payload
check_payload_damage header payload decoder full differ =
    elim (Bool-cases (crc32c payload == header.payload_crc)) [
      | inl e ↦ absurd (differ ((==_iff (crc32c payload) header.payload_crc).0 e))
      | inr e ↦ rw (full, e) (refl, refl)
    ]

complete_header_crc :
    (h : FrameHeader) (payload : Bytes)
    → is_empty payload ≡ false
    → (complete_header h payload).payload_crc ≡ crc32c payload
unfolding complete_header
complete_header_crc h payload full = simp full

module _ (h : FrameHeader) (a b rest : Bytes) (x y : ℕ) (decoder : FrameDecoder) where
  -- If one byte of the payload of a frame arrives changed, the decoder reports CORRUPTION.
  pub next_damage :
      Sendable h (a ++ (x ∷ b)) decoder
      → IsOpen decoder
      → AreBytes a
      → AreBytes b
      → x < 256
      → y < 256
      → x ≢ y
      → ((next
            (encode_frame_header (complete_header h (a ++ (x ∷ b))) ++ ((a ++ (y ∷ b)) ++ rest))
            decoder).0
          ≡ error)
        × ((next
              (encode_frame_header (complete_header h (a ++ (x ∷ b))) ++ ((a ++ (y ∷ b)) ++ rest))
              decoder).1.error_of_stream.code
            ≡ ErrorCode.corruption)
  next_damage ok alive ha hb hx hy differ =
      subst
        (λ (r : FrameState × FrameDecoder).
          (r.0 ≡ error) × (r.1.error_of_stream.code ≡ ErrorCode.corruption))
        (sym arrived)
        (check_payload_damage (complete_header h (a ++ (x ∷ b))) (a ++ (y ∷ b)) decoder (full y a)
          (λ e. crc32c_damage a b x y ha hb hx hy differ (sym (e ∙ own_crc))))
    where
      full : (z : ℕ) (c : Bytes) → is_empty (c ++ (z ∷ b)) ≡ false
      full z [] = refl
      full z (w ∷ c) = refl

      own_crc : (complete_header h (a ++ (x ∷ b))).payload_crc ≡ crc32c (a ++ (x ∷ b))
      own_crc = complete_header_crc h (a ++ (x ∷ b)) (full x a)

      lengths : length (a ++ (x ∷ b)) ≡ length (a ++ (y ∷ b))
      lengths = omega (arith, length-append a (x ∷ b), length-append a (y ∷ b))

      arrived :
          next
            (encode_frame_header (complete_header h (a ++ (x ∷ b))) ++ ((a ++ (y ∷ b)) ++ rest))
            decoder
          ≡ check_payload (complete_header h (a ++ (x ∷ b))) (a ++ (y ∷ b)) decoder
      arrived =
          let all : ltb (length ((a ++ (y ∷ b)) ++ rest)) (length (a ++ (x ∷ b))) ≡ false =
            ground (arith, lengths, length-append (a ++ (y ∷ b)) rest) in
          let taken : take (length (a ++ (x ∷ b))) ((a ++ (y ∷ b)) ++ rest) ≡ a ++ (y ∷ b) =
            ap (λ (k : ℕ). take k ((a ++ (y ∷ b)) ++ rest)) lengths
            ∙ take-append (a ++ (y ∷ b)) rest in
          next_start h (a ++ (x ∷ b)) decoder ok ((a ++ (y ∷ b)) ++ rest) alive ∙ simp (all, taken)
