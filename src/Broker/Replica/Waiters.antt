-- ===== src/Broker/Replica/Waiters.antt =====
-- The produce requests that wait: each is answered exactly once, in no call is one dropped, and the
-- published count is the number of those that still wait.
use mathlib.Core.List.{Perm, map-append, append-nil}
use mathlib.Core.List.Perm
use pulse_log.Base.{
  ℕ, ◌+◌, ◌*◌, ◌&&◌, Bool, ltb, Bool-cases, inl, inr, length-keep, if◌then◌else◌, ◌≡◌, ◌∙◌, refl,
  ap, subst, arith, true, not, List, [], ◌∷◌, ◌++◌, map, length, keep, keep-All, All, All-map,
  ltb→lt,
}
use pulse_log.Base.Int.{ℤ, ◌<ℤ◌, ltb_ℤ, leb_ℤ}
use pulse_log.Base.Keys.{int_key}
use pulse_log.Base.Partition.{keep-perm, keep-perm_swap, perm_steps}
use pulse_log.Base.Types.{AckMode}
use pulse_log.Broker.State.{
  DurabilityWaiter, LogView, StatusCode, ok, timed_out, Completion, PartitionReplica, quorum_size,
}
use pulse_log.Broker.Replica.{
  stamp, stamp_mode, satisfied, satisfied_mode, persisted_count, complete, settle, recompute,
  extract_satisfied, with_waiters, on_leader_append, add_waiter, complete_satisfied_waiters,
  expire_waiters, fail_all_waiters, set_assignment,
}
use pulse_log.Broker.Replica.Cases.{progress_cases, lag_cases}
use pulse_log.Broker.Replica.Steps.{
  Event, appended, reported, lagged, produced, swept, expired, failed, reassigned, Moment, step,
  run,
}

abbrev pub callbacks : List DurabilityWaiter → List ℕ
callbacks = map (λ w. w.on_complete)

abbrev pub answered : List Completion → List ℕ
answered = map (λ c. c.callback)

-- The requests that an event adds.
abbrev pub added : Event → List ℕ
added (produced w) = w.on_complete ∷ []
added appended = []
added (reported follower log_end flushed now_ms) = []
added (lagged follower) = []
added swept = []
added (expired now_ms) = []
added (failed reason) = []
added (reassigned a) = []

abbrev pub all_added : List (Moment × Event) → List ℕ
all_added [] = []
all_added ((t, e) ∷ es) = added e ++ all_added es

stamp_mode-on_complete :
    (log : LogView) (clock : DurabilityWaiter → ℤ) (w : DurabilityWaiter) (mode : AckMode)
    → (stamp_mode log clock w mode).on_complete ≡ w.on_complete
unfolding stamp_mode
stamp_mode-on_complete log clock w AckMode.none = refl
stamp_mode-on_complete log clock w AckMode.leader = refl
stamp_mode-on_complete log clock w AckMode.quorum = ground arith

stamp-on_complete :
    (log : LogView) (clock : DurabilityWaiter → ℤ) (w : DurabilityWaiter)
    → (stamp log clock w).on_complete ≡ w.on_complete
unfolding stamp
stamp-on_complete log clock w = stamp_mode-on_complete log clock w w.mode

callbacks-stamp :
    (log : LogView) (clock : DurabilityWaiter → ℤ) (ws : List DurabilityWaiter)
    → callbacks (map (stamp log clock) ws) ≡ callbacks ws
callbacks-stamp log clock [] = refl
callbacks-stamp log clock (w ∷ ws) =
    cc (stamp-on_complete log clock w, callbacks-stamp log clock ws)

answered-complete :
    (status : StatusCode) (mark : ℤ) (ws : List DurabilityWaiter)
    → answered (complete status mark ws) ≡ callbacks ws
unfolding complete
answered-complete status mark [] = refl
answered-complete status mark (w ∷ ws) =
    ap (λ (l : List ℕ). w.on_complete ∷ l) (answered-complete status mark ws)

-- The requests `before` are those that a call answers and those that wait after it.
abbrev pub Answers : List ℕ → PartitionReplica × List Completion → Type 0
Answers before u = Perm before (answered u.1 ++ callbacks u.0.waiters)

parts-perm :
    (status : StatusCode) (mark : ℤ) (ws done rest : List DurabilityWaiter)
    → Perm ws (done ++ rest)
    → Perm (callbacks ws) (answered (complete status mark done) ++ callbacks rest)
parts-perm status mark ws done rest h =
    rw
      (
        answered-complete status mark done,
        ← map-append (λ (w : DurabilityWaiter). w.on_complete) done rest,
      )
      (Perm.map (λ w. w.on_complete) h)

settle-Answers :
    (log : LogView) (clock : DurabilityWaiter → ℤ) (r : PartitionReplica)
    → Answers (callbacks r.waiters) (settle log clock r)
unfolding settle extract_satisfied with_waiters
settle-Answers log clock r =
    let ws : List DurabilityWaiter = map (stamp log clock) r.waiters in
    rw (← callbacks-stamp log clock r.waiters) (
      parts-perm ok r.high_water_mark ws (keep (satisfied log r) ws)
        (keep (λ w. not (satisfied log r w)) ws) (keep-perm (satisfied log r) ws))

waiters-recompute : (log : LogView) (r : PartitionReplica) → (recompute log r).waiters ≡ r.waiters
unfolding recompute
waiters-recompute log r = ground arith

recompute-Answers :
    (log : LogView) (clock : DurabilityWaiter → ℤ) (r : PartitionReplica)
    → Answers (callbacks r.waiters) (settle log clock (recompute log r))
recompute-Answers log clock r =
    subst
      (λ (ws : List DurabilityWaiter). Answers (callbacks ws) (settle log clock (recompute log r)))
      (waiters-recompute log r) (settle-Answers log clock (recompute log r))

-- Each call answers some of the requests that wait, and of those that it adds; the others still
-- wait. None is answered twice, and none is dropped.
pub step-Answers :
    (t : Moment) (e : Event) (r : PartitionReplica)
    → Answers (callbacks r.waiters ++ added e) (step t e r)
unfolding step on_leader_append add_waiter complete_satisfied_waiters expire_waiters
    fail_all_waiters set_assignment with_waiters
step-Answers t appended r = rw append-nil (recompute-Answers t.log t.clock r)
step-Answers t (reported follower log_end flushed now_ms) r = rw append-nil (
    progress_cases (Answers (callbacks r.waiters)) t.log t.clock follower r (Perm.refl _) log_end
      flushed now_ms (λ f _. recompute-Answers t.log t.clock _))
step-Answers t (lagged follower) r = rw append-nil (
    lag_cases (Answers (callbacks r.waiters)) t.log t.clock follower r (Perm.refl _)
      (λ f _ _. recompute-Answers t.log t.clock _))
step-Answers t (produced w) r =
    rw (← map-append (λ (w : DurabilityWaiter). w.on_complete) r.waiters (w ∷ []))
      (settle-Answers t.log t.clock (record r { waiters = r.waiters ++ w ∷ [] }))
step-Answers t swept r = rw append-nil (recompute-Answers t.log t.clock r)
step-Answers t (expired now_ms) r = rw append-nil (
    parts-perm timed_out r.high_water_mark r.waiters _ _
      (keep-perm_swap (λ w. ltb_ℤ now_ms w.deadline_ms) r.waiters))
step-Answers t (failed reason) r = rw append-nil (
    parts-perm reason r.high_water_mark r.waiters r.waiters []
      (rw append-nil (Perm.refl r.waiters)))
step-Answers t (reassigned a) r = rw append-nil (Perm.refl (callbacks r.waiters))

-- Over any history each produce request is answered exactly once or still waits.
pub run-Answers :
    (es : List (Moment × Event)) (r : PartitionReplica)
    → Answers (callbacks r.waiters ++ all_added es) (run es r)
unfolding run
run-Answers [] r = rw append-nil (Perm.refl (callbacks r.waiters))
run-Answers ((t, e) ∷ es) r =
    let u = step t e r in
    let v = run es u.0 in
    rw (map-append (λ (c : Completion). c.callback) u.1 v.1) (
      perm_steps (callbacks r.waiters) (added e) (all_added es) (answered u.1)
        (callbacks u.0.waiters) (answered v.1) (callbacks v.0.waiters) (step-Answers t e r)
        (run-Answers es u.0))

-- `pending_waiters_` shadows the size of the list: what `HasPendingWaiters` reads.
abbrev pub IsCounted : PartitionReplica → Type 0
IsCounted r = r.pending_waiters ≡ length r.waiters

settle-IsCounted :
    (log : LogView) (clock : DurabilityWaiter → ℤ) (r : PartitionReplica)
    → IsCounted (settle log clock r).0
unfolding settle extract_satisfied with_waiters
settle-IsCounted log clock r = refl

-- Every call leaves the published count equal to the number of requests that wait.
pub step-IsCounted :
    (t : Moment) (e : Event) (r : PartitionReplica) → IsCounted r → IsCounted (step t e r).0
unfolding step on_leader_append add_waiter complete_satisfied_waiters expire_waiters
    fail_all_waiters set_assignment with_waiters
step-IsCounted t appended r h = settle-IsCounted t.log t.clock (recompute t.log r)
step-IsCounted t (reported follower log_end flushed now_ms) r h =
    progress_cases (λ u. IsCounted u.0) t.log t.clock follower r h log_end flushed now_ms
      (λ f _. settle-IsCounted t.log t.clock _)
step-IsCounted t (lagged follower) r h =
    lag_cases (λ u. IsCounted u.0) t.log t.clock follower r h
      (λ f _ _. settle-IsCounted t.log t.clock _)
step-IsCounted t (produced w) r h = settle-IsCounted t.log t.clock _
step-IsCounted t swept r h = settle-IsCounted t.log t.clock (recompute t.log r)
step-IsCounted t (expired now_ms) r h = refl
step-IsCounted t (failed reason) r h = refl
step-IsCounted t (reassigned a) r h = h

abbrev pub late : ℤ → List DurabilityWaiter → List DurabilityWaiter
late now_ms = keep (λ w. leb_ℤ w.deadline_ms now_ms)

not_later-late :
    (now_ms : ℤ) (ws : List DurabilityWaiter)
    → keep (λ w. not (ltb_ℤ now_ms w.deadline_ms)) ws ≡ late now_ms ws
unfolding keep
not_later-late now_ms [] = refl
not_later-late now_ms (w ∷ ws) = ground (arith, not_later-late now_ms ws)

complete-All :
    (status : StatusCode) (mark : ℤ) (ws : List DurabilityWaiter)
    → All (λ c. (c.status ≡ status) × (c.watermark ≡ mark)) (complete status mark ws)
unfolding complete
complete-All status mark [] = tt
complete-All status mark (w ∷ ws) = ((refl, refl), complete-All status mark ws)

-- After `ExpireWaiters(now_ms)` every request that waits has its deadline ahead; those whose
-- deadline is not ahead were answered, in their order, each with TIMEOUT and the high-water mark.
pub expire_waiters-late :
    (now_ms : ℤ) (r : PartitionReplica)
    → All (λ w. now_ms <ℤ w.deadline_ms) (expire_waiters now_ms r).0.waiters
      × (answered (expire_waiters now_ms r).1 ≡ callbacks (late now_ms r.waiters))
      × All
          (λ c. (c.status ≡ timed_out) × (c.watermark ≡ r.high_water_mark))
          (expire_waiters now_ms r).1
unfolding expire_waiters with_waiters
expire_waiters-late now_ms r = (
  All-map (λ (w : DurabilityWaiter). ltb_ℤ now_ms w.deadline_ms ≡ true) (λ w h. ltb→lt _ _ h)
      (keep (λ w. ltb_ℤ now_ms w.deadline_ms) r.waiters)
      (keep-All (λ w. ltb_ℤ now_ms w.deadline_ms) r.waiters),
  answered-complete timed_out r.high_water_mark _ ∙ ap callbacks (not_later-late now_ms r.waiters),
  complete-All timed_out r.high_water_mark _,
)

-- The replicas that this broker counts as having flushed past `required`: itself, and the followers in
-- sync that reported so.
abbrev pub backers : LogView → PartitionReplica → ℤ → ℕ
backers log r required =
    length (keep (λ e. e.1.in_sync && ltb_ℤ required e.1.flushed_offset) r.followers)
    + (if leb_ℤ log.flushed required then 0 else 1)

-- What a request waits for: nothing, that its record is in the leader's log, or that more than half of
-- the replica set has flushed it.
abbrev pub is_due_mode : LogView → PartitionReplica → ℤ → AckMode → Bool
is_due_mode log r required AckMode.none = true
is_due_mode log r required AckMode.leader = not (leb_ℤ log.log_end required)
is_due_mode log r required AckMode.quorum =
    ltb (length r.assignment.replicas) (2 * backers log r required)

abbrev pub is_due : LogView → PartitionReplica → DurabilityWaiter → Bool
is_due log r w = is_due_mode log r w.required_offset w.mode

satisfied_mode-is_due :
    (log : LogView) (r : PartitionReplica) (required : ℤ) (mode : AckMode)
    → satisfied_mode log r required mode ≡ is_due_mode log r required mode
unfolding satisfied_mode quorum_size persisted_count
satisfied_mode-is_due log r required AckMode.none = refl
satisfied_mode-is_due log r required AckMode.leader = ground arith
satisfied_mode-is_due log r required AckMode.quorum =
    ground (arith, length-keep (λ e. e.1.in_sync && ltb_ℤ required e.1.flushed_offset) r.followers)

stamp_mode-condition :
    (log : LogView) (clock : DurabilityWaiter → ℤ) (w : DurabilityWaiter) (mode : AckMode)
    → ((stamp_mode log clock w mode).mode ≡ w.mode)
      × ((stamp_mode log clock w mode).required_offset ≡ w.required_offset)
unfolding stamp_mode
stamp_mode-condition log clock w AckMode.none = (refl, refl)
stamp_mode-condition log clock w AckMode.leader = (refl, refl)
stamp_mode-condition log clock w AckMode.quorum = (ground arith, ground arith)

satisfied-stamp :
    (log : LogView) (clock : DurabilityWaiter → ℤ) (r : PartitionReplica) (w : DurabilityWaiter)
    → satisfied log r (stamp log clock w) ≡ is_due log r w
unfolding satisfied stamp
satisfied-stamp log clock r w =
    let same = stamp_mode-condition log clock w w.mode in
    ap (λ (m : AckMode). satisfied_mode log r (stamp_mode log clock w w.mode).required_offset m)
      (same.0)
    ∙ ap (λ (o : ℤ). satisfied_mode log r o w.mode) (same.1)
    ∙ satisfied_mode-is_due log r w.required_offset w.mode

callbacks-keep :
    (p q : DurabilityWaiter → Bool) (f : DurabilityWaiter → DurabilityWaiter)
    → ((w : DurabilityWaiter) → p (f w) ≡ q w)
    → ((w : DurabilityWaiter) → (f w).on_complete ≡ w.on_complete)
    → (ws : List DurabilityWaiter) → callbacks (keep p (map f ws)) ≡ callbacks (keep q ws)
unfolding keep
callbacks-keep p q f h k [] = refl
callbacks-keep p q f h k (w ∷ ws) = elim (Bool-cases (q w)) [
  | inl e ↦
      rw (h w ∙ e, e)
        (ap (λ (c : ℕ). c ∷ callbacks (keep p (map f ws))) (k w)
          ∙ ap (λ (cs : List ℕ). w.on_complete ∷ cs) (callbacks-keep p q f h k ws))
  | inr e ↦ rw (h w ∙ e, e) (callbacks-keep p q f h k ws)
]

-- A call that settles answers exactly the requests whose condition holds, in their order, each with OK and
-- the high-water mark; the others wait on, in their order. The condition is none, a record in the
-- leader's log, or one that more than half of the replica set has flushed.
pub settle-is_due :
    (log : LogView) (clock : DurabilityWaiter → ℤ) (r : PartitionReplica)
    → (answered (settle log clock r).1 ≡ callbacks (keep (is_due log r) r.waiters))
      × (callbacks (settle log clock r).0.waiters
          ≡ callbacks (keep (λ w. not (is_due log r w)) r.waiters))
      × All (λ c. (c.status ≡ ok) × (c.watermark ≡ r.high_water_mark)) (settle log clock r).1
unfolding settle extract_satisfied with_waiters
settle-is_due log clock r = (
  answered-complete ok r.high_water_mark (keep (satisfied log r) (map (stamp log clock) r.waiters))
      ∙ callbacks-keep (satisfied log r) (is_due log r) (stamp log clock)
          (satisfied-stamp log clock r) (stamp-on_complete log clock) r.waiters,
  callbacks-keep (λ w. not (satisfied log r w)) (λ w. not (is_due log r w)) (stamp log clock)
      (λ w. ap not (satisfied-stamp log clock r w)) (stamp-on_complete log clock) r.waiters,
  complete-All ok r.high_water_mark _,
)
