-- ===== src/Consumer/OffsetStore.antt =====
-- consumer/offset_store.{h,cc}: the committed offsets and their journal. The journal is the list of
-- records that the partition log `__offsets` holds; what the log does with an append is an argument of
-- `commit_offset`.
pub mod Journal
use pulse_log.Base.{
  ℕ, suc, ◌+◌, ◌≡◌, ◌↔◌, arith, Bool, true, false, ◌&&◌, ◌||◌, not, if◌then◌else◌, Option, none,
  some, List, [], ◌∷◌, ◌++◌, keep,
}
use pulse_log.Base.Int.{ℤ, pos, ltb_ℤ, leb_ℤ, eqb_ℤ, eqb_ℤ_iff}
use pulse_log.Base.Keys.{Key, Bytes, bytes_eq, bytes_lt, bytes_eq_iff, bytes_key, ◌==◌}
use pulse_log.Base.Maps.{Map, find, assign, erase}
use pulse_log.Base.Types.{ErrorCode}
use pulse_log.Base.Text.{text}
use pulse_log.Base.Status.{Status, ok_status, error_is_ok, with_context}
use pulse_log.Protocol.Codec.{
  put_string, put_i32, put_i64, get_string, get_i32, get_i64, reader, Get, continue, ◌>>=◌, ◌>>◌,
  pure, guard, refuse, is_complete,
}

pub record CommittedOffset : Type 0 where
  pub offset : ℤ
  pub metadata : Bytes
  pub commit_time : ℤ

pub record OffsetKey : Type 0 where
  pub group_id : Bytes
  pub topic : Bytes
  pub partition : ℤ

abbrev pub offset_key_eq : OffsetKey → OffsetKey → Bool
offset_key_eq a b =
    eqb_ℤ a.partition b.partition && (bytes_eq a.group_id b.group_id && bytes_eq a.topic b.topic)

-- `operator<`
abbrev pub offset_key_lt : OffsetKey → OffsetKey → Bool
offset_key_lt a b =
    if not (bytes_eq a.group_id b.group_id)
    then bytes_lt a.group_id b.group_id
    else if not (bytes_eq a.topic b.topic)
    then bytes_lt a.topic b.topic
    else ltb_ℤ a.partition b.partition

pub offset_key_eq_iff : (a b : OffsetKey) → (offset_key_eq a b ≡ true) ↔ (a ≡ b)
offset_key_eq_iff a b = (
  (λ h. ground (
    arith,
    eqb_ℤ_iff a.partition b.partition,
    bytes_eq_iff a.group_id b.group_id,
    bytes_eq_iff a.topic b.topic,
  )),
  (λ h. ground (
    arith,
    eqb_ℤ_iff a.partition b.partition,
    bytes_eq_iff a.group_id b.group_id,
    bytes_eq_iff a.topic b.topic,
  )),
)

instance abbrev pub offset_key : Key OffsetKey
offset_key = record { beq = offset_key_eq; less = offset_key_lt; beq_iff = offset_key_eq_iff }

unfoldable pub encode_key : OffsetKey → Bytes
encode_key k = put_string k.group_id ++ put_string k.topic ++ put_i32 k.partition

-- `return reader.Complete();`
abbrev pub read_complete : Get Bool
read_complete r = (some (is_complete r), r)

unfoldable pub decode_key : Get OffsetKey
decode_key = do
  group_id ← get_string
  topic ← get_string
  partition ← get_i32
  guard (leb_ℤ (pos 0) partition)
  whole ← read_complete
  guard whole
  pure (record { group_id = group_id; topic = topic; partition = partition })

unfoldable pub encode_value : CommittedOffset → Bytes
encode_value v = put_i64 v.offset ++ put_i64 v.commit_time ++ put_string v.metadata

unfoldable pub decode_value : Get CommittedOffset
decode_value = do
  offset ← get_i64
  commit_time ← get_i64
  metadata ← get_string
  whole ← read_complete
  guard whole
  pure (record { offset = offset; metadata = metadata; commit_time = commit_time })

-- A record of the journal. A tombstone has no value.
pub record JournalRecord : Type 0 where
  pub key : Bytes
  pub value : Option Bytes

pub record OffsetStore : Type 0 where
  pub journal : List JournalRecord
  pub offsets : Map OffsetKey CommittedOffset
  pub replayed_records : ℕ

-- An unparseable value leaves the map, and the record is counted all the same.
unfoldable pub replay_value : OffsetKey → Option CommittedOffset → OffsetStore → OffsetStore
replay_value key none s = record s { replayed_records = suc s.replayed_records }
replay_value key (some value) s = record s {
  offsets = assign key value s.offsets;
  replayed_records = suc s.replayed_records;
}

unfoldable pub replay_at : OffsetKey → Option Bytes → OffsetStore → OffsetStore
replay_at key none s = record s {
  offsets = erase key s.offsets;
  replayed_records = suc s.replayed_records;
}
replay_at key (some value) s = replay_value key (decode_value (reader value)).0 s

-- A record with an unparseable key is skipped.
unfoldable pub replay_record : Option OffsetKey → JournalRecord → OffsetStore → OffsetStore
replay_record none r s = s
replay_record (some key) r s = replay_at key r.value s

-- The records that the reads of the log give, in order.
unfoldable pub replay : List JournalRecord → OffsetStore → OffsetStore
replay [] s = s
replay (r ∷ rs) s = replay rs (replay_record (decode_key (reader r.key)).0 r s)

-- `Open` of a directory whose log holds these records.
unfoldable pub open_store : List JournalRecord → OffsetStore
open_store journal =
    replay journal (record { journal = journal; offsets = []; replayed_records = 0 })

-- What `AppendAssigningOffsets` does with a record: its status, and whether the log holds the record all
-- the same when the status is an error. It does if the flush failed that follows the write.
pub record LogAnswer : Type 0 where
  pub status : Status
  pub written : Bool

abbrev pub is_acknowledged : LogAnswer → Bool
is_acknowledged appended = error_is_ok appended.status.code

abbrev pub is_logged : LogAnswer → Bool
is_logged appended = is_acknowledged appended || appended.written

abbrev pub log_record : LogAnswer → OffsetKey → CommittedOffset → OffsetStore → OffsetStore
log_record appended key value s = record s {
  journal =
      if is_logged appended
      then s.journal ++ (record { key = encode_key key; value = some (encode_value value) } ∷ [])
      else s.journal;
}

unfoldable pub commit_offset :
    LogAnswer → OffsetKey → CommittedOffset → OffsetStore → Status × OffsetStore
commit_offset appended key value s =
    let logged = log_record appended key value s in
    if is_acknowledged appended
    then (ok_status, record logged { offsets = assign key value s.offsets })
    else (with_context (text "committing consumer offset") appended.status, logged)

-- `Get`
unfoldable pub get_offset : OffsetKey → OffsetStore → Option CommittedOffset
get_offset key s = find key s.offsets

unfoldable pub for_group : Bytes → OffsetStore → Map OffsetKey CommittedOffset
for_group group_id s = keep (λ e. bytes_eq e.0.group_id group_id) s.offsets
