-- ===== src/Consumer/OffsetStore/Journal.antt =====
-- What a replay of the journal gives, and what the map holds.
use pulse_log.Base.{
  ◌≡◌, ◌∙◌, refl, ap, ◌&&◌, Bool-cases, inl, inr, subst, some, List, [], ◌∷◌, ◌++◌, All, keep, Bool,
  if◌then◌else◌,
}
use pulse_log.Base.Keys.{Bytes, ◌==◌}
use pulse_log.Base.Maps.{Map, assign, find-assign}
use mathlib.Core.List.{append_assoc, append-nil}
use pulse_log.Protocol.Codec.{u64_mod, reader, is_complete}
use pulse_log.Protocol.Codec.Fields.{
  FitsSigned, get_i32-put_i32, get_i64-put_i64, get_string-put_string,
}
use pulse_log.Protocol.Wire.Steps.{IsName, IsIndex}
use pulse_log.Consumer.OffsetStore.{
  CommittedOffset, OffsetKey, offset_key, encode_key, decode_key, encode_value, decode_value,
  JournalRecord, OffsetStore, LogAnswer, is_acknowledged, is_logged, replay_value, replay_at,
  replay_record, replay, open_store, commit_offset, get_offset,
}

-- Keys and values that the journal can hold.
abbrev pub IsKey : OffsetKey → Type 0
IsKey k = IsName k.group_id × (IsName k.topic × IsIndex k.partition)

abbrev pub IsValue : CommittedOffset → Type 0
IsValue v = FitsSigned u64_mod v.offset × (FitsSigned u64_mod v.commit_time × IsName v.metadata)

decode_key-encode_key :
    (k : OffsetKey) → IsKey k → decode_key (reader (encode_key k)) ≡ (some k, reader [])
unfolding decode_key encode_key is_complete
decode_key-encode_key k h =
    subst (λ (b : Bytes). decode_key (reader b) ≡ (some k, reader [])) (append-nil (encode_key k))
      (simp (
        append_assoc,
        get_string-put_string k.group_id h.0,
        get_string-put_string k.topic h.1.0,
        get_i32-put_i32 k.partition h.1.1.1,
        h.1.1.0,
      ))

decode_value-encode_value :
    (v : CommittedOffset) → IsValue v → decode_value (reader (encode_value v)) ≡ (some v, reader [])
unfolding decode_value encode_value is_complete
decode_value-encode_value v h =
    subst (λ (b : Bytes). decode_value (reader b) ≡ (some v, reader []))
      (append-nil (encode_value v))
      (simp (
        append_assoc,
        get_i64-put_i64 v.offset h.0,
        get_i64-put_i64 v.commit_time h.1.0,
        get_string-put_string v.metadata h.1.1,
      ))

abbrev journal_record : OffsetKey → CommittedOffset → JournalRecord
journal_record key value = record { key = encode_key key; value = some (encode_value value) }

replay_record-encode :
    (key : OffsetKey) (value : CommittedOffset) (s : OffsetStore)
    → IsKey key
    → IsValue value
    → (replay (journal_record key value ∷ []) s).offsets ≡ assign key value s.offsets
unfolding replay replay_record replay_at replay_value
replay_record-encode key value s h k =
    simp (decode_key-encode_key key h, decode_value-encode_value value k)

replay-append :
    (rs qs : List JournalRecord) (s : OffsetStore) → replay (rs ++ qs) s ≡ replay qs (replay rs s)
unfolding replay
replay-append [] qs s = refl
replay-append (r ∷ rs) qs s = replay-append rs qs (replay_record (decode_key (reader r.key)).0 r s)

abbrev Commit : Type 0
Commit = LogAnswer × (OffsetKey × CommittedOffset)

-- A sequence of commits, each with what the log does with it.
unfoldable pub commits :
    List (LogAnswer × (OffsetKey × CommittedOffset)) → OffsetStore → OffsetStore
commits [] s = s
commits ((appended, (key, value)) ∷ cs) s = commits cs (commit_offset appended key value s).1

abbrev pub IsCommit : LogAnswer × (OffsetKey × CommittedOffset) → Type 0
IsCommit c = IsKey c.1.0 × IsValue c.1.1

-- The last value for each key.
unfoldable pub put_all :
    List (LogAnswer × (OffsetKey × CommittedOffset))
    → Map OffsetKey CommittedOffset
    → Map OffsetKey CommittedOffset
put_all [] m = m
put_all ((appended, (key, value)) ∷ cs) m = put_all cs (assign key value m)

-- What a replay of the journal gives.
abbrev Replays : OffsetStore → Map OffsetKey CommittedOffset → Type 0
Replays s m = (start : OffsetStore) → start.offsets ≡ [] → (replay s.journal start).offsets ≡ m

commit_offset-Replays :
    (appended : LogAnswer) (key : OffsetKey) (value : CommittedOffset) (s : OffsetStore)
    (m : Map OffsetKey CommittedOffset)
    → IsKey key
    → IsValue value
    → Replays s m
    → Replays
        (commit_offset appended key value s).1
        (if is_logged appended then assign key value m else m)
unfolding commit_offset
commit_offset-Replays appended key value s m h k replayed start e0 =
    let grown : (replay (s.journal ++ (journal_record key value ∷ [])) start).offsets
        ≡ assign key value m =
      rw
        (
          replay-append s.journal (journal_record key value ∷ []) start,
          replay_record-encode key value (replay s.journal start) h k,
        )
        (ap (assign key value) (replayed start e0)) in
    elim (Bool-cases (is_acknowledged appended)) [
      | inl e ↦ rw e grown
      | inr e ↦ elim (Bool-cases appended.written) [
        | inl w ↦ rw (e, w) grown
        | inr w ↦ rw (e, w) (replayed start e0)
      ]
    ]

commits-Replays :
    (cs : List Commit) (s : OffsetStore) (m : Map OffsetKey CommittedOffset)
    → All IsCommit cs
    → Replays s m
    → Replays (commits cs s) (put_all (keep (λ c. is_logged c.0) cs) m)
unfolding commits put_all keep
commits-Replays [] s m h replayed = replayed
commits-Replays ((appended, (key, value)) ∷ cs) s m h replayed =
    let next = commit_offset-Replays appended key value s m h.0.0 h.0.1 replayed in
    elim (Bool-cases (is_logged appended)) [
      | inl e ↦ rw e (
          commits-Replays cs (commit_offset appended key value s).1 (assign key value m) h.1 (
            subst
              (λ (b : Bool).
                Replays (commit_offset appended key value s).1
                  (if b then assign key value m else m))
              e next))
      | inr e ↦ rw e (
          commits-Replays cs (commit_offset appended key value s).1 m h.1 (
            subst
              (λ (b : Bool).
                Replays (commit_offset appended key value s).1
                  (if b then assign key value m else m))
              e next))
    ]

commit_offset-offsets :
    (appended : LogAnswer) (key : OffsetKey) (value : CommittedOffset) (s : OffsetStore)
    → (commit_offset appended key value s).1.offsets
      ≡ (if is_acknowledged appended then assign key value s.offsets else s.offsets)
unfolding commit_offset
commit_offset-offsets appended key value s = elim (Bool-cases (is_acknowledged appended)) [
  | inl e ↦ rw e
  | inr e ↦ rw e
]

acknowledged_step :
    (appended : LogAnswer) (key : OffsetKey) (value : CommittedOffset) (cs : List Commit)
    (m : Map OffsetKey CommittedOffset)
    → put_all cs (if is_acknowledged appended then assign key value m else m)
      ≡ put_all (if is_acknowledged appended then (appended, (key, value)) ∷ cs else cs) m
unfolding put_all
acknowledged_step appended key value cs m = elim (Bool-cases (is_acknowledged appended)) [
  | inl e ↦ rw e
  | inr e ↦ rw e
]

commits-offsets :
    (cs : List Commit) (s : OffsetStore)
    → (commits cs s).offsets ≡ put_all (keep (λ c. is_acknowledged c.0) cs) s.offsets
unfolding commits put_all keep
commits-offsets [] s = refl
commits-offsets ((appended, (key, value)) ∷ cs) s =
    let rest = keep (λ c. is_acknowledged c.0) cs in
    commits-offsets cs (commit_offset appended key value s).1
    ∙ ap (put_all rest) (commit_offset-offsets appended key value s)
    ∙ acknowledged_step appended key value rest s.offsets

-- After any sequence of commits on a store that was opened empty, whatever the log did with each, a store
-- that is opened on its journal has the last value of each key among all commits that the log holds; the
-- store itself has the last among those that were acknowledged. The journal's fields can hold the keys
-- and the values.
pub open_store-commits :
    (cs : List (LogAnswer × (OffsetKey × CommittedOffset)))
    → All IsCommit cs
    → ((open_store (commits cs (open_store [])).journal).offsets
        ≡ put_all (keep (λ c. is_logged c.0) cs) [])
      × ((commits cs (open_store [])).offsets ≡ put_all (keep (λ c. is_acknowledged c.0) cs) [])
unfolding open_store replay
open_store-commits cs h = (
  commits-Replays cs (open_store []) [] h (λ start e. unfold open_store replay in e)
      (record {
        journal = (commits cs (open_store [])).journal;
        offsets = [];
        replayed_records = 0;
      })
      refl,
  commits-offsets cs (open_store []),
)

-- What a store gives for a key after a commit: the value at the commit's key if the log
-- acknowledged it, and otherwise what it gave before.
pub get_offset-commit_offset :
    (appended : LogAnswer) (key j : OffsetKey) (value : CommittedOffset) (s : OffsetStore)
    → get_offset j (commit_offset appended key value s).1
      ≡ (if is_acknowledged appended && (key == j) then some value else get_offset j s)
unfolding get_offset commit_offset
get_offset-commit_offset appended key j value s = elim (Bool-cases (is_acknowledged appended)) [
  | inl e ↦ rw e (find-assign key j value s.offsets)
  | inr e ↦ rw e
]
