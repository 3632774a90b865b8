-- ===== src/Storage/Log/Retention.antt =====
-- Retention, `EnforceRetention` of src/storage/partition_log.cc, on the sealed segments of a log.
use pulse_log.Base.{
  ℕ, ◌+◌, ◌≡◌, ◌∙◌, ◌↔◌, ◌⊎◌, refl, sym, ap, subst, arith, true, false, ◌&&◌, List, [], ◌∷◌, ◌++◌,
  length, Bool-cases, inl, inr,
}
use mathlib.Core.Bool.{false≢true}
use pulse_log.Base.Int.{ℤ, pos, ◌-ℤ◌, ◌<ℤ◌, leb_ℤ}
use pulse_log.Storage.Segment.{Segment}
use pulse_log.Storage.Log.{
  LogOptions, PartitionLog, retain, enforce_retention, expires, front_base, total_size,
}
use pulse_log.Storage.Log.Chain.{Chain, IsLog}

Chain-start :
    (start end : ℤ) (ss : List Segment) (active : Segment)
    → active.base_offset ≡ end
    → Chain start ss end
    → front_base ss active ≡ start
Chain-start start end [] active h c = h ∙ sym c
Chain-start start end (s ∷ ss) active h (b, n, c) = b

-- The loop on the sealed segments of a log.
retain-IsLog :
    (now : ℤ) (ss : List Segment) (log : PartitionLog)
    → IsLog (record log { sealed = ss })
    → IsLog (retain now ss log)
unfolding retain
retain-IsLog now [] log ok = ok
retain-IsLog now (s ∷ ss) log ((b, m, c), n, e, f) =
    elim (Bool-cases (expires now log.options s (total_size (s ∷ ss) + log.active.end_position))) [
      | inr stays ↦ rw stays ((b, m, c), n, e, f)
      | inl goes ↦ rw goes (
          retain-IsLog now ss
            (record log {
              log_start_offset = front_base ss log.active;
              deleted_segments = log.deleted_segments + 1;
            })
            (
              subst (λ (x : ℤ). Chain x ss log.active.base_offset)
                  (sym (Chain-start s.next_offset log.active.base_offset ss log.active refl c)) c,
              n,
              e,
              f,
            ))
    ]

-- Retention leaves the segments without gaps, from the start of the log to the active segment.
pub enforce_retention-IsLog :
    (now : ℤ) (log : PartitionLog) → IsLog log → IsLog (enforce_retention now log)
unfolding enforce_retention
enforce_retention-IsLog now log ok =
    elim (Bool-cases
      (leb_ℤ log.options.retention_bytes (pos 0) && leb_ℤ log.options.retention_ms (pos 0))) [
        | inl off ↦ rw off ok
        | inr on ↦ rw on (retain-IsLog now log.sealed log ok)
      ]

-- The bytes of all segments.
unfoldable pub bytes_of : List Segment → ℕ
bytes_of [] = 0
bytes_of (s ∷ ss) = s.end_position + bytes_of ss

total_size-bytes_of :
    (ss : List Segment) (active : Segment)
    → total_size ss + active.end_position ≡ bytes_of (ss ++ (active ∷ []))
unfolding bytes_of
total_size-bytes_of [] active = omega arith
total_size-bytes_of (s ∷ ss) active = omega (arith, total_size-bytes_of ss active)

-- A limit is exceeded while `oldest` is the first of the segments: that of the age, or that of the size.
abbrev pub IsExceeded : ℤ → LogOptions → Segment → List Segment → Type 0
IsExceeded now options oldest rest =
    ((pos 0 <ℤ options.retention_ms)
      × (pos 0 <ℤ oldest.max_timestamp)
      × (options.retention_ms <ℤ now -ℤ oldest.max_timestamp))
    ⊎ ((pos 0 <ℤ options.retention_bytes)
        × (options.retention_bytes <ℤ pos (bytes_of (oldest ∷ rest))))

expires_iff :
    (now : ℤ) (options : LogOptions) (oldest : Segment) (total : ℕ)
    → (expires now options oldest total ≡ true) ↔ (
        ((pos 0 <ℤ options.retention_ms)
          × (pos 0 <ℤ oldest.max_timestamp)
          × (options.retention_ms <ℤ now -ℤ oldest.max_timestamp))
        ⊎ ((pos 0 <ℤ options.retention_bytes) × (options.retention_bytes <ℤ pos total)))
unfolding expires
expires_iff now options oldest total = ((λ h. ground arith), (λ h. ground arith))

expires-IsExceeded :
    (now : ℤ) (log : PartitionLog) (s : Segment) (ss : List Segment)
    → (expires now log.options s (total_size (s ∷ ss) + log.active.end_position) ≡ true)
      ↔ IsExceeded now log.options s (ss ++ (log.active ∷ []))
expires-IsExceeded now log s ss =
    subst
      (λ (n : ℕ).
        (expires now log.options s n ≡ true)
        ↔ IsExceeded now log.options s (ss ++ (log.active ∷ [])))
      (sym (total_size-bytes_of (s ∷ ss) log.active))
      (expires_iff now log.options s (bytes_of ((s ∷ ss) ++ (log.active ∷ []))))

-- Each of the segments exceeds a limit when those before it are gone.
abbrev pub AllExceeded : ℤ → PartitionLog → List Segment → List Segment → Type 0
AllExceeded now log [] kept = Unit
AllExceeded now log (s ∷ gone) kept =
    IsExceeded now log.options s ((gone ++ kept) ++ (log.active ∷ []))
    × AllExceeded now log gone kept

-- The oldest sealed segment exceeds no limit, or no sealed segment is left.
abbrev pub Settled : ℤ → PartitionLog → List Segment → Type 0
Settled now log [] = Unit
Settled now log (s ∷ ss) = ¬ IsExceeded now log.options s (ss ++ (log.active ∷ []))

-- From the sealed segments `ss` those of `gone` were deleted, and the others stay.
pub record Retains (now : ℤ) (log : PartitionLog) (ss : List Segment) (after : PartitionLog)
    : Type 0 where
  pub gone : List Segment
  pub split : ss ≡ gone ++ after.sealed
  pub exceeded : AllExceeded now log gone after.sealed
  pub settled : Settled now log after.sealed
  pub active : after.active ≡ log.active
  pub end : after.log_end_offset ≡ log.log_end_offset
  pub count : after.deleted_segments ≡ log.deleted_segments + length gone

AllExceeded-after :
    (now : ℤ) (log : PartitionLog) (start : ℤ) (n : ℕ) (gone kept : List Segment)
    → AllExceeded now (record log { log_start_offset = start; deleted_segments = n }) gone kept
    → AllExceeded now log gone kept
AllExceeded-after now log start n [] kept h = tt
AllExceeded-after now log start n (s ∷ gone) kept (e, h) =
    (e, AllExceeded-after now log start n gone kept h)

Settled-after :
    (now : ℤ) (log : PartitionLog) (start : ℤ) (n : ℕ) (kept : List Segment)
    → Settled now (record log { log_start_offset = start; deleted_segments = n }) kept
    → Settled now log kept
Settled-after now log start n [] h = tt
Settled-after now log start n (s ∷ kept) h = h

retain-Retains :
    (now : ℤ) (ss : List Segment) (log : PartitionLog) → Retains now log ss (retain now ss log)
unfolding retain
retain-Retains now [] log = record {
  gone = [];
  split = refl;
  exceeded = tt;
  settled = tt;
  active = refl;
  end = refl;
  count = omega arith;
}
retain-Retains now (s ∷ ss) log =
    elim (Bool-cases (expires now log.options s (total_size (s ∷ ss) + log.active.end_position))) [
      | inr stays ↦ rw stays (record {
        gone = [];
        split = refl;
        exceeded = tt;
        settled = λ h. false≢true (sym stays ∙ (expires-IsExceeded now log s ss).1 h);
        active = refl;
        end = refl;
        count = omega arith;
      })
      | inl goes ↦
          let start = front_base ss log.active in
          let later = retain-Retains now ss (record log {
            log_start_offset = start;
            deleted_segments = log.deleted_segments + 1;
          }) in
          let kept =
            (retain now ss (record log {
              log_start_offset = start;
              deleted_segments = log.deleted_segments + 1;
            })).sealed in
          rw goes (record {
            gone = s ∷ later.gone;
            split = ap (λ (t : List Segment). s ∷ t) later.split;
            exceeded = (
              subst (λ (t : List Segment). IsExceeded now log.options s (t ++ (log.active ∷ [])))
                  later.split ((expires-IsExceeded now log s ss).0 goes),
              AllExceeded-after now log start (log.deleted_segments + 1) later.gone kept
                  later.exceeded,
            );
            settled = Settled-after now log start (log.deleted_segments + 1) kept later.settled;
            active = later.active;
            end = later.end;
            count = omega (arith, later.count);
          })
    ]

-- Retention with a limit deletes the oldest sealed segments, one after the other: each that is deleted
-- exceeds the limit of the age or that of the size of the log that is left, and the first that exceeds
-- none stays, with all behind it. The active segment and the end of the log stay, and the count of
-- deleted segments grows by those.
pub enforce_retention-Retains :
    (now : ℤ) (log : PartitionLog)
    → (leb_ℤ log.options.retention_bytes (pos 0) && leb_ℤ log.options.retention_ms (pos 0)) ≡ false
    → Retains now log log.sealed (enforce_retention now log)
unfolding enforce_retention
enforce_retention-Retains now log on = rw on (retain-Retains now log.sealed log)
