-- ===== src/Consumer/Coordinator/Fencing.antt =====
-- `Commit` moves a committed offset only for the member that owns the partition.
use pulse_log.Base.{
  ◌≡◌, ◌≢◌, ◌↔◌, refl, ap, ◌∙◌, arith, true, false, Bool-cases, inl, inr, ◌⊎◌, Option, none, some,
  [], is_empty,
}
use pulse_log.Base.Int.{ℤ, pos, ◌≤ℤ◌, eqb_ℤ_iff}
use pulse_log.Base.Keys.{bytes_key, ◌==◌, ==_refl}
use pulse_log.Base.Maps.{find}
use pulse_log.Base.Order.{elem}
use pulse_log.Base.Types.{TopicPartition, partition_key}
use pulse_log.Consumer.OffsetStore.{LogAnswer, is_acknowledged}
use pulse_log.Consumer.OffsetStore.{CommittedOffset, OffsetKey, commit_offset, get_offset}
use pulse_log.Protocol.GroupMessages.{CommitOffsetRequest}
use pulse_log.Protocol.Wire.{ResponseHeader}
use pulse_log.Consumer.Coordinator.{
  GroupMember, Group, GroupCoordinator, header_ok, value_or, new_group,
}
use pulse_log.Consumer.Coordinator.Requests.{
  fetch_offset, committed_response, fence_member, fence_group, fence, store_commit, commit,
}
use pulse_log.Consumer.OffsetStore.{offset_key}
use pulse_log.Consumer.OffsetStore.Journal.{get_offset-commit_offset}
use pulse_log.Consumer.Coordinator.Changes.{assigned, assignment_of, group_at}
use pulse_log.Consumer.Coordinator.Owners.{Owns}

-- A request of a member that may commit: its group's generation, and a partition that it owns there.
abbrev pub MayCommit : CommitOffsetRequest → GroupCoordinator → Type 0
MayCommit request c =
    (request.generation ≡ (group_at request.group_id c).generation)
    × Owns (record { topic = request.topic; partition = request.partition }) request.member_id
        (group_at request.group_id c)

abbrev pub target_of : CommitOffsetRequest → TopicPartition
target_of request = record { topic = request.topic; partition = request.partition }

abbrev pub key_of : CommitOffsetRequest → OffsetKey
key_of request = record {
  group_id = request.group_id;
  topic = request.topic;
  partition = request.partition;
}

abbrev pub value_of : CommitOffsetRequest → ℤ → CommittedOffset
value_of request now_ms = record {
  offset = request.offset;
  metadata = request.metadata;
  commit_time = now_ms;
}

fence_member_iff :
    (request : CommitOffsetRequest) (g : Group) (o : Option GroupMember)
    → (fence_member request g o ≡ none) ↔ (
        (request.generation ≡ g.generation)
        × (elem (target_of request) (value_or [] (assignment_of o)) ≡ true))
unfolding fence_member elem
fence_member_iff request g none = ground (arith, eqb_ℤ_iff request.generation g.generation)
fence_member_iff request g (some member) = ground (arith, eqb_ℤ_iff request.generation g.generation)

fence_group_iff :
    (request : CommitOffsetRequest) (o : Option Group)
    → (fence_group request o ≡ none) ↔ (
        (request.generation ≡ (value_or new_group o).generation)
        × (elem
              (target_of request)
              (value_or [] (assigned request.member_id (value_or new_group o)))
            ≡ true))
unfolding fence_group assigned elem find
fence_group_iff request none = ground arith
fence_group_iff request (some g) = fence_member_iff request g (find request.member_id g.members)

fence_iff :
    (request : CommitOffsetRequest) (c : GroupCoordinator)
    → is_empty request.member_id ≡ false
    → (fence request c ≡ none) ↔ ((pos 0 ≤ℤ request.offset) × MayCommit request c)
unfolding fence
fence_iff request c h = ground (arith, fence_group_iff request (find request.group_id c.groups))

refused_or_none : (o : Option ResponseHeader) → (o ≡ none) ⊎ (o ≢ none)
refused_or_none none = inl refl
refused_or_none (some header) = inr (λ e. ground arith)

refused-store :
    (appended : LogAnswer) (request : CommitOffsetRequest) (now_ms : ℤ) (c : GroupCoordinator)
    (o : Option ResponseHeader)
    → o ≢ none
    → (store_commit appended request now_ms o c).1 ≡ c
unfolding store_commit
refused-store appended request now_ms c none h = absurd (h refl)
refused-store appended request now_ms c (some header) h = refl

-- A commit in a member's name changes no committed offset, or it is from a member that owns the
-- partition in the current generation, its offset is not negative, the journal acknowledged it,
-- and it changes no offset but the one of the member's group for that partition, which is then what was asked.
pub commit-fenced :
    (appended : LogAnswer) (request : CommitOffsetRequest) (now_ms : ℤ) (c : GroupCoordinator)
    (j : OffsetKey)
    → is_empty request.member_id ≡ false
    → (get_offset j (commit appended request now_ms c).1.offsets ≡ get_offset j c.offsets)
      ⊎ ((pos 0 ≤ℤ request.offset)
          × (MayCommit request c
              × ((is_acknowledged appended ≡ true)
                  × ((key_of request ≡ j)
                      × (get_offset j (commit appended request now_ms c).1.offsets
                          ≡ some (value_of request now_ms))))))
unfolding commit
commit-fenced appended request now_ms c j h = elim (refused_or_none (fence request c)) [
  | inr n ↦ inl (
      ap (λ d. get_offset j d.offsets)
        (refused-store appended request now_ms c (fence request c) n))
  | inl e ↦ let may = (fence_iff request c h).0 e in rw e (stored may)
]
  where
    stored :
        (pos 0 ≤ℤ request.offset) × MayCommit request c
        → (get_offset j (store_commit appended request now_ms none c).1.offsets
            ≡ get_offset j c.offsets)
          ⊎ ((pos 0 ≤ℤ request.offset)
              × (MayCommit request c
                  × ((is_acknowledged appended ≡ true)
                      × ((key_of request ≡ j)
                          × (get_offset j (store_commit appended request now_ms none c).1.offsets
                              ≡ some (value_of request now_ms))))))
    stored may =
        let after =
          get_offset-commit_offset appended (key_of request) j (value_of request now_ms)
            c.offsets in
        elim (Bool-cases (is_acknowledged appended)) [
          | inr n ↦ inl (unfold store_commit in after ∙ rw n)
          | inl y ↦ elim (Bool-cases (key_of request == j)) [
            | inr n ↦ inl (unfold store_commit in after ∙ rw (y, n))
            | inl k ↦ inr (
              may.0,
              (
                may.1,
                (
                  y,
                  (
                    (offset_key.beq_iff (key_of request) j).0 k,
                    unfold store_commit in after ∙ rw (y, k),
                  ),
                ),
              ),
            )
          ]
        ]

-- A commit of an offset that is not negative, in the name of a member that owns the partition in the
-- current generation, is answered without an error if the journal acknowledges it, and `FetchOffset` then
-- gives its offset and metadata.
pub fetch_offset-commit :
    (appended : LogAnswer) (request : CommitOffsetRequest) (now_ms : ℤ) (c : GroupCoordinator)
    → is_empty request.member_id ≡ false
    → pos 0 ≤ℤ request.offset
    → MayCommit request c
    → is_acknowledged appended ≡ true
    → ((commit appended request now_ms c).0 ≡ header_ok)
      × (fetch_offset
            (record {
              group_id = request.group_id;
              topic = request.topic;
              partition = request.partition;
            })
            (commit appended request now_ms c).1
          ≡ record { header = header_ok; offset = request.offset; metadata = request.metadata })
unfolding commit
fetch_offset-commit appended request now_ms c h low may ok =
    rw ((fence_iff request c h).1 (low, may)) (answered, fetched)
  where
    answered : (store_commit appended request now_ms none c).0 ≡ header_ok
    answered = unfold store_commit commit_offset in simp ok

    fetched :
        fetch_offset
          (record {
            group_id = request.group_id;
            topic = request.topic;
            partition = request.partition;
          })
          (store_commit appended request now_ms none c).1
        ≡ record { header = header_ok; offset = request.offset; metadata = request.metadata }
    fetched =
        let k = key_of request in
        let v = value_of request now_ms in
        unfold store_commit fetch_offset committed_response in
        let read : get_offset k (commit_offset appended k v c.offsets).1 ≡ some v =
          get_offset-commit_offset appended k k v c.offsets ∙ simp (ok, ==_refl k) in
        ap committed_response read
