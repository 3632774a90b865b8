-- ===== src/Protocol/Wire/Steps.antt =====
-- How the shared parts of a message are read back: enumerations, header, arrays and records.
use native.Mathlib.Nat.{le-div_iff_mul-le, mul_comm}
use pulse_log.Base.{
  ℕ, ◌*◌, ◌/◌, ◌%◌, ◌≤◌, ◌<◌, ◌≡◌, refl, arith, leb, ◌==◌, if◌then◌else◌, true, subst, some, List,
  [], ◌∷◌, ◌++◌, length, length-append, take-append, All,
}
use pulse_log.Base.Int.{ℤ, pos, leb_ℤ}
use pulse_log.Base.Keys.{Bytes}
use pulse_log.Base.Types.{Compression, AckMode, AssignmentStrategy, ErrorCode}
use mathlib.Core.List.{append_assoc}
use pulse_log.Protocol.Codec.{
  u16_mod, u32_mod, put_u16, put_u32, put_i32, put_i64, put_string, put_array_len, reader, Get,
  get_i32, get_string, get_remaining, put_u64,
}
use pulse_log.Protocol.Codec.Fields.{
  Reads, FitsSigned, get_u16-put_u16, get_i32-put_i32, get_string-put_string,
  get_array_len-put_array_len, length-store_le,
}
use pulse_log.Protocol.Wire.{
  max_array_elements, element_budget, get_list, get_array, put_list, put_array, get_records,
  error_number, error_of_number, error_or_unknown, ResponseHeader, encode_header, decode_header,
  IsolationLevel, ack_number, ack_of_number, isolation_number, isolation_of_number,
  compression_number, compression_of_number, strategy_number, strategy_of_number,
}

pub error_of_number-error_number :
    (code : ErrorCode) → error_of_number (error_number code) ≡ some code
unfolding error_of_number error_number
error_of_number-error_number = elim [
  | ErrorCode.ok ↦ refl
  | ErrorCode.unknown ↦ refl
  | ErrorCode.invalid_argument ↦ refl
  | ErrorCode.not_found ↦ refl
  | ErrorCode.already_exists ↦ refl
  | ErrorCode.out_of_range ↦ refl
  | ErrorCode.corruption ↦ refl
  | ErrorCode.io_error ↦ refl
  | ErrorCode.unavailable ↦ refl
  | ErrorCode.timeout ↦ refl
  | ErrorCode.backpressure ↦ refl
  | ErrorCode.not_leader ↦ refl
  | ErrorCode.not_enough_replicas ↦ refl
  | ErrorCode.protocol_error ↦ refl
  | ErrorCode.unsupported_version ↦ refl
  | ErrorCode.permission_denied ↦ refl
  | ErrorCode.resource_exhausted ↦ refl
  | ErrorCode.rebalance_in_progress ↦ refl
  | ErrorCode.unknown_member ↦ refl
  | ErrorCode.illegal_generation ↦ refl
  | ErrorCode.closed ↦ refl
  | ErrorCode.would_block ↦ refl
  | ErrorCode.internal ↦ refl
]

pub error_number-lt : (code : ErrorCode) → error_number code < 23
unfolding error_number
error_number-lt = elim [
  | ErrorCode.ok ↦ omega arith
  | ErrorCode.unknown ↦ omega arith
  | ErrorCode.invalid_argument ↦ omega arith
  | ErrorCode.not_found ↦ omega arith
  | ErrorCode.already_exists ↦ omega arith
  | ErrorCode.out_of_range ↦ omega arith
  | ErrorCode.corruption ↦ omega arith
  | ErrorCode.io_error ↦ omega arith
  | ErrorCode.unavailable ↦ omega arith
  | ErrorCode.timeout ↦ omega arith
  | ErrorCode.backpressure ↦ omega arith
  | ErrorCode.not_leader ↦ omega arith
  | ErrorCode.not_enough_replicas ↦ omega arith
  | ErrorCode.protocol_error ↦ omega arith
  | ErrorCode.unsupported_version ↦ omega arith
  | ErrorCode.permission_denied ↦ omega arith
  | ErrorCode.resource_exhausted ↦ omega arith
  | ErrorCode.rebalance_in_progress ↦ omega arith
  | ErrorCode.unknown_member ↦ omega arith
  | ErrorCode.illegal_generation ↦ omega arith
  | ErrorCode.closed ↦ omega arith
  | ErrorCode.would_block ↦ omega arith
  | ErrorCode.internal ↦ omega arith
]

-- A response header whose message is shorter than 64 KiB is read back from its encoding, and the
-- reader then stands at the bytes that follow.
pub decode_header-encode_header :
    (h : ResponseHeader)
    → length h.error_message < u16_mod
    → Reads decode_header (encode_header h) h
unfolding decode_header encode_header error_or_unknown
decode_header-encode_header h fits rest = simp (
  append_assoc,
  get_u16-put_u16 (error_number h.error) (omega (arith, error_number-lt h.error)),
  get_string-put_string h.error_message fits,
  error_of_number-error_number h.error,
)

pub ack_of_number-ack_number : (e : AckMode) → ack_of_number (ack_number e) ≡ some e
unfolding ack_of_number ack_number
ack_of_number-ack_number = elim [
  | AckMode.none ↦ refl
  | AckMode.leader ↦ refl
  | AckMode.quorum ↦ refl
]

pub ack_number-lt : (e : AckMode) → ack_number e < 256
unfolding ack_number
ack_number-lt = elim [
  | AckMode.none ↦ omega arith
  | AckMode.leader ↦ omega arith
  | AckMode.quorum ↦ omega arith
]

pub isolation_of_number-isolation_number :
    (e : IsolationLevel) → isolation_of_number (isolation_number e) ≡ some e
unfolding isolation_of_number isolation_number
isolation_of_number-isolation_number = elim [
  | IsolationLevel.read_uncommitted ↦ refl
  | IsolationLevel.read_replicated ↦ refl
]

pub isolation_number-lt : (e : IsolationLevel) → isolation_number e < 256
unfolding isolation_number
isolation_number-lt = elim [
  | IsolationLevel.read_uncommitted ↦ omega arith
  | IsolationLevel.read_replicated ↦ omega arith
]

pub compression_of_number-compression_number :
    (e : Compression) → compression_of_number (compression_number e) ≡ some e
unfolding compression_of_number compression_number
compression_of_number-compression_number = elim [
  | Compression.none ↦ refl
  | Compression.lz4_like ↦ refl
]

pub compression_number-lt : (e : Compression) → compression_number e < 256
unfolding compression_number
compression_number-lt = elim [ Compression.none ↦ omega arith | Compression.lz4_like ↦ omega arith ]

pub strategy_of_number-strategy_number :
    (e : AssignmentStrategy) → strategy_of_number (strategy_number e) ≡ some e
unfolding strategy_of_number strategy_number
strategy_of_number-strategy_number = elim [
  | AssignmentStrategy.range ↦ refl
  | AssignmentStrategy.round_robin ↦ refl
]

pub strategy_number-lt : (e : AssignmentStrategy) → strategy_number e < 256
unfolding strategy_number
strategy_number-lt = elim [
  | AssignmentStrategy.range ↦ omega arith
  | AssignmentStrategy.round_robin ↦ omega arith
]

-- A text whose length its 16 bits hold.
abbrev pub IsName : Bytes → Type 0
IsName s = length s < u16_mod

-- A partition index that the decoders accept.
abbrev pub IsIndex : ℤ → Type 0
IsIndex p = (leb_ℤ (pos 0) p ≡ true) × FitsSigned u32_mod p

abbrev pub IsId : ℤ → Type 0
IsId v = FitsSigned u32_mod v

abbrev pub IsArray : {A : Type 0} → (A → Type 0) → List A → Type 0
IsArray P elements = (length elements ≤ max_array_elements) × All P elements

-- A decoder that takes the payload to its end.
abbrev pub ReadsAll : {A : Type 0} → Get A → Bytes → A → Type 0
ReadsAll get b a = (rest : Bytes) → get (reader (b ++ rest)) ≡ (some a, reader [])

pub mod_u32 : (n : ℕ) → n < u32_mod → n % u32_mod ≡ n
mod_u32 n h = omega arith

pub records_remain : (records rest : Bytes) → leb (length records) (length (records ++ rest)) ≡ true
records_remain records rest = ground (arith, length-append records rest)

pub get_records_lem :
    (records rest : Bytes)
    → get_records (length records) (reader (records ++ rest)) ≡ (some records, reader [])
unfolding get_records get_remaining
get_records_lem records rest = simp (take-append records rest)

get_list-put_list :
    {A : Type 0} (put : A → Bytes) (get : Get A) (P : A → Type 0)
    → ((a : A) → P a → Reads get (put a) a)
    → (elements : List A) → All P elements
    → Reads (get_list (length elements) get) (put_list put elements) elements
unfolding get_list put_list
get_list-put_list put get P reads [] h rest = refl
get_list-put_list put get P reads (a ∷ others) h rest =
    simp (append_assoc, reads a h.0, get_list-put_list put get P reads others h.1)

length-put_list :
    {A : Type 0} (n : ℕ) (put : A → Bytes)
    → ((a : A) → n ≤ length (put a))
    → (elements : List A) → n * length elements ≤ length (put_list put elements)
unfolding put_list
length-put_list n put h [] = omega arith
length-put_list n put h (a ∷ others) =
    omega (arith, length-append (put a) (put_list put others), h a, length-put_list n put h others)

within_budget :
    (n count : ℕ) (body rest : Bytes)
    → 0 < n
    → count ≤ max_array_elements
    → n * count ≤ length body
    → count ≤ element_budget n (reader (put_array_len count ++ (body ++ rest)))
unfolding element_budget
within_budget n count body rest h small long =
    let all = put_array_len count ++ (body ++ rest) in
    let space : n * count ≤ length all =
      omega (arith, length-append (put_array_len count) (body ++ rest), length-append body rest) in
    let fits : count ≤ length all / n =
      (le-div_iff_mul-le {k = n} {x = count} {y = length all} h).1
        (subst (λ (k : ℕ). k ≤ length all) (mul_comm n count) space) in
    let some_bytes : (if n == 0 then 1 else n) ≡ n = ground arith in rw some_bytes (ground arith)

pub get_elements :
    {A : Type 0} (n : ℕ) (put : A → Bytes) (get : Get A) (P : A → Type 0)
    → 0 < n
    → ((a : A) → P a → Reads get (put a) a)
    → ((a : A) → n ≤ length (put a))
    → (elements : List A) → IsArray P elements
    → Reads (get_array n get) (put_array put elements) elements
unfolding get_array put_array
get_elements n put get P h reads long elements valid rest =
    let count = length elements in
    let fits =
      within_budget n count (put_list put elements) rest h valid.0
        (length-put_list n put long elements) in
    rw (append_assoc (put_array_len count) (put_list put elements) rest) (
      simp (
        get_array_len-put_array_len count
            (element_budget n (reader (put_array_len count ++ (put_list put elements ++ rest))))
            (omega arith) fits,
        get_list-put_list put get P reads elements valid.1,
      ))

pub two_le_string : (s : Bytes) → 2 ≤ length (put_string s)
unfolding put_string put_u16
two_le_string s =
    omega (
      arith,
      length-append (put_u16 (length s % u16_mod)) s,
      length-store_le 2 (length s % u16_mod),
    )

pub length-put_i32 : (v : ℤ) → length (put_i32 v) ≡ 4
unfolding put_i32 put_u32
length-put_i32 v = length-store_le 4 _

pub length-put_i64 : (v : ℤ) → length (put_i64 v) ≡ 8
unfolding put_i64 put_u64
length-put_i64 v = length-store_le 8 _

pub length-put_u16 : (v : ℕ) → length (put_u16 v) ≡ 2
unfolding put_u16
length-put_u16 v = length-store_le 2 v

pub four_le_array :
    {A : Type 0} (put : A → Bytes) (elements : List A) → 4 ≤ length (put_array put elements)
unfolding put_array put_array_len put_u32
four_le_array put elements = omega (
  arith,
  length-append (put_array_len (length elements)) (put_list put elements),
  length-store_le 4 (length elements % u32_mod),
)

pub get_names :
    (names : List Bytes)
    → IsArray IsName names
    → Reads (get_array 2 get_string) (put_array put_string names) names
get_names =
    get_elements 2 put_string get_string IsName (omega arith) get_string-put_string two_le_string

pub get_ids :
    (ids : List ℤ) → IsArray IsId ids → Reads (get_array 4 get_i32) (put_array put_i32 ids) ids
get_ids =
    get_elements 4 put_i32 get_i32 IsId (omega arith) get_i32-put_i32
      (λ v. omega (arith, length-put_i32 v))
