-- ===== src/Broker/Replica/Cases.antt =====
-- Case rules for the two calls that look a follower up.
use pulse_log.Base.{
  ◌≡◌, inl, inr, not, List, true, false, some, [], Bool-cases, Option-cases, if◌then◌else◌,
}
use pulse_log.Base.Int.{ℤ, ltb_ℤ}
use pulse_log.Base.Maps.{find, assign}
use pulse_log.Base.Keys.{int_key}
use pulse_log.Broker.State.{FollowerState, DurabilityWaiter, LogView, Completion, PartitionReplica}
use pulse_log.Broker.Replica.{
  is_leader, candidate_mark, recompute, settle, progress, on_follower_progress,
  mark_follower_out_of_sync,
}

-- The last part of both calls, over the updated followers.
abbrev pub update :
    LogView
    → (DurabilityWaiter → ℤ)
    → ℤ
    → PartitionReplica
    → FollowerState
    → PartitionReplica × List Completion
update log clock follower r f =
    settle log clock (recompute log (record r { followers = assign follower f r.followers }))

module _ {ℓ} (P : PartitionReplica × List Completion → Type ℓ) (log : LogView)
    (clock : DurabilityWaiter → ℤ) (follower : ℤ) (r : PartitionReplica)
    (unchanged : P (r, [])) where
  pub progress_cases :
      (log_end flushed now_ms : ℤ)
      → ((f : FollowerState)
          → find follower r.followers ≡ some f
          → P (update log clock follower r (progress log_end flushed now_ms f)))
      → P (on_follower_progress log clock follower log_end flushed now_ms r)
  unfolding on_follower_progress
  progress_cases log_end flushed now_ms known = elim (Option-cases (find follower r.followers)) [
    | inl e ↦ rw (e, on_follower_progress) unchanged
    | inr (f, e) ↦ rw (e, on_follower_progress) (known f e)
  ]

  pub lag_cases :
      ((f : FollowerState)
        → find follower r.followers ≡ some f
        → f.in_sync ≡ true
        → P (update log clock follower r (record f { in_sync = false })))
      → P (mark_follower_out_of_sync log clock follower r)
  unfolding mark_follower_out_of_sync
  lag_cases known = elim (Option-cases (find follower r.followers)) [
    | inl e ↦ rw (e, mark_follower_out_of_sync) unchanged
    | inr (f, e) ↦ rw (e, mark_follower_out_of_sync) (go f (known f e))
  ]
    where
      go :
          (f : FollowerState)
          → (f.in_sync ≡ true → P (update log clock follower r (record f { in_sync = false })))
          → P (
              if not f.in_sync
              then (r, [])
              else update log clock follower r (record f { in_sync = false }))
      go f h = elim (Bool-cases f.in_sync) [ inl k ↦ simp k (h k) | inr k ↦ simp k unchanged ]

-- A recomputation changes the mark at most.
pub recompute_cases {ℓ} :
    (P : PartitionReplica → Type ℓ) (log : LogView) (r : PartitionReplica)
    → P r
    → ((h : ℤ) → P (record r { high_water_mark = h }))
    → P (recompute log r)
unfolding recompute
recompute_cases P log r same moved = elim (Bool-cases (is_leader r)) [
  | inr e ↦ rw e same
  | inl e ↦ elim (Bool-cases (ltb_ℤ r.high_water_mark (candidate_mark log r.followers))) [
    | inl k ↦ rw (e, k) (moved (candidate_mark log r.followers))
    | inr k ↦ rw (e, k) same
  ]
]
