-- ===== src/Broker/Replica/Watermark.antt =====
-- The high-water mark: `RecomputeHighWaterMarkLocked` and what its callers keep of it.
use pulse_log.Base.{
  ℕ, suc, ◌≤◌, ◌≡◌, ◌∙◌, ◌⊎◌, inl, inr, refl, ap, sym, subst, arith, leb, true, false, [], ◌∷◌,
  Bool-cases, All,
}
use pulse_log.Base.Int.{ℤ, pos_part, neg_part, ◌≤ℤ◌, ltb_ℤ, min_ℤ, min_ℤ-le}
use pulse_log.Base.Maps.{Map}
use pulse_log.Base.Keys.{int_key}
use pulse_log.Broker.State.{FollowerState, LogView, PartitionReplica}
use pulse_log.Broker.Replica.{
  in_sync_min, candidate_mark, is_leader, recompute, settle, extract_satisfied, with_waiters,
  on_leader_append, add_waiter, complete_satisfied_waiters, expire_waiters, fail_all_waiters,
  set_assignment,
}
use pulse_log.Broker.Replica.Cases.{progress_cases, lag_cases}
use pulse_log.Broker.Replica.Steps.{
  Event, appended, reported, lagged, produced, swept, expired, failed, reassigned, Moment, step,
}

-- A mark that every follower in sync has reached.
abbrev pub Covered : ℤ → ℤ × FollowerState → Type 0
Covered mark e = e.1.in_sync ≡ true → mark ≤ℤ e.1.log_end_offset

abbrev pub Reached : ℤ → Map ℤ FollowerState → Type 0
Reached mark = All (Covered mark)

module _ (id : ℤ) (f : FollowerState) (m : Map ℤ FollowerState) (mark : ℤ) (n : ℕ) where
  in_sync_min_in :
      f.in_sync ≡ true
      → in_sync_min ((id, f) ∷ m) mark n ≡ in_sync_min m (min_ℤ mark f.log_end_offset) (suc n)
  unfolding in_sync_min
  in_sync_min_in e = simp e

  in_sync_min_out : f.in_sync ≡ false → in_sync_min ((id, f) ∷ m) mark n ≡ in_sync_min m mark n
  unfolding in_sync_min
  in_sync_min_out e = simp e

in_sync_min-le : (m : Map ℤ FollowerState) (mark : ℤ) (n : ℕ) → (in_sync_min m mark n).0 ≤ℤ mark
in_sync_min-le [] mark n = unfold in_sync_min in omega arith
in_sync_min-le ((id, f) ∷ m) mark n = elim (Bool-cases f.in_sync) [
  | inl e ↦ rw (in_sync_min_in id f m mark n e) (
      omega (
        arith,
        in_sync_min-le m (min_ℤ mark f.log_end_offset) (suc n),
        min_ℤ-le mark f.log_end_offset,
      ))
  | inr e ↦ rw (in_sync_min_out id f m mark n e) (in_sync_min-le m mark n)
]

in_sync_min-Reached :
    (m : Map ℤ FollowerState) (mark : ℤ) (n : ℕ) → Reached (in_sync_min m mark n).0 m
in_sync_min-Reached [] mark n = tt
in_sync_min-Reached ((id, f) ∷ m) mark n = elim (Bool-cases f.in_sync) [
  | inl e ↦ subst goal (sym (in_sync_min_in id f m mark n e)) (
    (λ _. omega (
      arith,
      in_sync_min-le m (min_ℤ mark f.log_end_offset) (suc n),
      min_ℤ-le mark f.log_end_offset,
    )),
    in_sync_min-Reached m (min_ℤ mark f.log_end_offset) (suc n),
  )
  | inr e ↦
      subst goal (sym (in_sync_min_out id f m mark n e)) ((λ h. cc), in_sync_min-Reached m mark n)
]
  where
    goal : ℤ × ℕ → Type 0
    goal t = Reached t.0 ((id, f) ∷ m)

in_sync_min-count : (m : Map ℤ FollowerState) (mark : ℤ) (n : ℕ) → n ≤ (in_sync_min m mark n).1
in_sync_min-count [] mark n = unfold in_sync_min in omega arith
in_sync_min-count ((id, f) ∷ m) mark n = elim (Bool-cases f.in_sync) [
  | inl e ↦
      rw (in_sync_min_in id f m mark n e)
        (omega (arith, in_sync_min-count m (min_ℤ mark f.log_end_offset) (suc n)))
  | inr e ↦ rw (in_sync_min_out id f m mark n e) (in_sync_min-count m mark n)
]

-- If nobody was counted, nobody is in sync, and any mark is reached.
in_sync_min-none :
    (m : Map ℤ FollowerState) (mark other : ℤ) (n : ℕ)
    → (in_sync_min m mark n).1 ≤ n
    → Reached other m
in_sync_min-none [] mark other n h = tt
in_sync_min-none ((id, f) ∷ m) mark other n h = elim (Bool-cases f.in_sync) [
  | inl e ↦ absurd (
      omega (
        arith,
        ap (λ (t : ℤ × ℕ). t.1) (in_sync_min_in id f m mark n e),
        in_sync_min-count m (min_ℤ mark f.log_end_offset) (suc n),
      ))
  | inr e ↦ (
    (λ k. cc),
    in_sync_min-none m mark other n
        (omega (arith, ap (λ (t : ℤ × ℕ). t.1) (in_sync_min_out id f m mark n e))),
  )
]

-- The mark that a leader computes is reached by its log and by every follower in sync.
candidate_mark-Reached :
    (log : LogView) (m : Map ℤ FollowerState)
    → (candidate_mark log m ≤ℤ log.log_end) × Reached (candidate_mark log m) m
unfolding candidate_mark
candidate_mark-Reached log m = elim (Bool-cases (leb (in_sync_min m log.log_end 1).1 1)) [
  | inl e ↦ rw e (omega arith, in_sync_min-none m log.log_end log.log_end 1 (ground arith))
  | inr e ↦ rw e (in_sync_min-le m log.log_end 1, in_sync_min-Reached m log.log_end 1)
]

module _ (log : LogView) (r : PartitionReplica) where
  high_water_mark-recompute_mono : r.high_water_mark ≤ℤ (recompute log r).high_water_mark
  unfolding recompute
  high_water_mark-recompute_mono = ground arith

  followers-recompute : (recompute log r).followers ≡ r.followers
  unfolding recompute
  followers-recompute = ground arith

  -- Where the mark moves, the log and every follower in sync have reached it.
  recompute-advance :
      ((recompute log r).high_water_mark ≡ r.high_water_mark)
      ⊎ (((recompute log r).high_water_mark ≤ℤ log.log_end)
          × Reached (recompute log r).high_water_mark r.followers)
  recompute-advance = elim (Bool-cases (is_leader r)) [
    | inr e ↦ inl (unfold recompute in rw e)
    | inl e ↦ elim (Bool-cases (ltb_ℤ r.high_water_mark (candidate_mark log r.followers))) [
      | inr k ↦ inl (unfold recompute in rw (e, k))
      | inl k ↦
          let moved : (recompute log r).high_water_mark ≡ candidate_mark log r.followers =
            unfold recompute in ground arith in
          inr (
            subst (λ (h : ℤ). (h ≤ℤ log.log_end) × Reached h r.followers) (sym moved)
              (candidate_mark-Reached log r.followers))
    ]
  ]

-- From `r` to `r'` the mark does not fall, and where it moves, the log's end and every follower in
-- sync have reached it.
pub record Advance (log : LogView) (r r' : PartitionReplica) : Type 0 where
  pub mono : r.high_water_mark ≤ℤ r'.high_water_mark
  pub backed :
      (r'.high_water_mark ≡ r.high_water_mark)
      ⊎ ((r'.high_water_mark ≤ℤ log.log_end) × Reached r'.high_water_mark r'.followers)

still-Advance :
    (log : LogView) (r r' : PartitionReplica)
    → r'.high_water_mark ≡ r.high_water_mark
    → Advance log r r'
still-Advance log r r' e = record {
  mono = omega (arith, ap pos_part e, ap neg_part e);
  backed = inl e;
}

-- The followers may have been updated before the recomputation.
settle-recompute-Advance :
    (t : Moment) (r u : PartitionReplica)
    → u.high_water_mark ≡ r.high_water_mark
    → Advance t.log r (settle t.log t.clock (recompute t.log u)).0
unfolding settle extract_satisfied with_waiters
settle-recompute-Advance t r u e = record {
  mono =
      subst (λ (h : ℤ). h ≤ℤ (recompute t.log u).high_water_mark) e
        (high_water_mark-recompute_mono t.log u);
  backed = elim (recompute-advance t.log u) [
    | inl k ↦ inl (k ∙ e)
    | inr k ↦ inr (
      k.0,
      subst (Reached (recompute t.log u).high_water_mark) (sym (followers-recompute t.log u)) k.1,
    )
  ];
}

-- No call moves the high-water mark backwards, and a mark that moves is backed by the leader's log
-- and by every follower that is in sync after the call.
pub step-Advance : (t : Moment) (e : Event) (r : PartitionReplica) → Advance t.log r (step t e r).0
step-Advance t appended r = unfold step on_leader_append in settle-recompute-Advance t r r refl
step-Advance t (reported follower log_end flushed now_ms) r =
    unfold step in
    progress_cases (λ u. Advance t.log r u.0) t.log t.clock follower r
      (still-Advance t.log r r refl) log_end flushed now_ms
      (λ f _. settle-recompute-Advance t r _ refl)
step-Advance t (lagged follower) r =
    unfold step in
    lag_cases (λ u. Advance t.log r u.0) t.log t.clock follower r (still-Advance t.log r r refl)
      (λ f _ _. settle-recompute-Advance t r _ refl)
step-Advance t (produced w) r =
    still-Advance t.log r _ (unfold step add_waiter settle extract_satisfied with_waiters in refl)
step-Advance t swept r =
    unfold step complete_satisfied_waiters in settle-recompute-Advance t r r refl
step-Advance t (expired now_ms) r =
    still-Advance t.log r _ (unfold step expire_waiters with_waiters in refl)
step-Advance t (failed reason) r =
    still-Advance t.log r _ (unfold step fail_all_waiters with_waiters in refl)
step-Advance t (reassigned a) r = still-Advance t.log r _ (unfold step set_assignment in refl)
