-- ===== src/ScanQueue/Ticks.antt =====
-- The worker of src/services/scanQueue.ts: how many jobs its ticks start, and what completes a job.
use dragnet.Prelude.{
  ℕ, ◌+◌, ◌≤◌, String, Bool, true, false, not, ◌&&◌, get_or, ltb, ◌≡◌, ◌↔◌, ◌<◌, refl, arith, ◌⊎◌,
  ◌-◌, ◌∙◌, Bool-cases, inl, inr,
}
use dragnet.ScanQueue.{completed}
use dragnet.ScanQueue.Worker.{
  ScanBody, classify_queue_worker_http_result, QueueWorker, new_worker, begin_pass, end_pass, tick,
  claim_gives, claim_ends, job_ends, stop,
}

-- A job is completed exactly when the route answered well, the scan was not interrupted, it did not report
-- a failure, and its terminal outcome is not a failed one.
classify_queue_worker_http_result-completed_iff :
    (res_ok : Bool) (body : ScanBody) (status_text : String)
    → ((classify_queue_worker_http_result res_ok body status_text).state ≡ completed) ↔ (
        (res_ok ≡ true)
        × (body.is_interrupted ≡ false)
        × (get_or body.success true ≡ true)
        × (body.terminal_is_failed ≡ false))
unfolding classify_queue_worker_http_result
classify_queue_worker_http_result-completed_iff res_ok body status_text = ground arith

module _ (max_concurrent : ℕ) where
  -- one event at a worker; a claim answers only if one is awaited, and a job ends only if one is executed
  pub data Event : QueueWorker → QueueWorker → Type 0 where
    wakes : (w : QueueWorker) → Event w (tick max_concurrent w)
    gives : (w : QueueWorker) → 0 < w.claims → Event w (claim_gives max_concurrent w)
    finds_none : (w : QueueWorker) → 0 < w.claims → Event w (claim_ends max_concurrent w)
    finishes : (w : QueueWorker) → 0 < w.active → Event w (job_ends max_concurrent w)
    stops : (w : QueueWorker) → Event w (stop w)

  pub data Reach : QueueWorker → Type 0 where
    begin : Reach new_worker
    next : {w v : QueueWorker} → Reach w → Event w v → Reach v

  pub record IsSafe (w : QueueWorker) : Type 0 where
    pub slots : w.active + w.claims ≤ max_concurrent
    pub one_claim : w.claims ≤ 1
    pub in_tick : w.ticking ≡ ltb 0 w.claims
    pub no_lost_wake : (w.wake_pending && not w.ticking && not w.stopped) ≡ false

  Event-IsSafe : {w v : QueueWorker} → Event w v → IsSafe w → IsSafe v
  unfolding begin_pass end_pass tick claim_gives claim_ends job_ends
  Event-IsSafe (wakes w) h = record {
    slots = ground (arith, h.slots, h.in_tick, h.one_claim);
    one_claim = ground (arith, h.in_tick, h.one_claim);
    in_tick = ground (arith, h.in_tick, h.one_claim);
    no_lost_wake = ground (arith, h.in_tick, h.no_lost_wake);
  }
  Event-IsSafe (gives w awaited) h = record {
    slots = ground (arith, h.slots, h.in_tick, h.one_claim, awaited);
    one_claim = ground (arith, h.in_tick, h.one_claim, awaited);
    in_tick = ground (arith, h.in_tick, h.one_claim, awaited);
    no_lost_wake = ground (arith, h.in_tick, h.no_lost_wake, h.one_claim, awaited);
  }
  Event-IsSafe (finds_none w awaited) h = record {
    slots = ground (arith, h.slots, h.in_tick, h.one_claim, awaited);
    one_claim = ground (arith, h.in_tick, h.one_claim, awaited);
    in_tick = ground (arith, h.in_tick, h.one_claim, awaited);
    no_lost_wake = ground (arith, h.in_tick, h.no_lost_wake, h.one_claim, awaited);
  }
  Event-IsSafe (finishes w runs) h = record {
    slots = ground (arith, h.slots, h.in_tick, h.one_claim, runs);
    one_claim = ground (arith, h.in_tick, h.one_claim, runs);
    in_tick = ground (arith, h.in_tick, h.one_claim, runs);
    no_lost_wake = ground (arith, h.in_tick, h.no_lost_wake, h.one_claim, runs);
  }
  Event-IsSafe (stops w) h = record {
    slots = h.slots;
    one_claim = h.one_claim;
    in_tick = h.in_tick;
    no_lost_wake = ground arith;
  }

  Reach-IsSafe : (w : QueueWorker) → Reach w → IsSafe w
  Reach-IsSafe w begin = record {
    slots = omega arith;
    one_claim = omega arith;
    in_tick = refl;
    no_lost_wake = refl;
  }
  Reach-IsSafe w (next r e) = Event-IsSafe e (Reach-IsSafe _ r)

  -- from `w` the event leads to `v`, or to a further claim once the awaited one has ended
  abbrev pub Claims : QueueWorker → QueueWorker → Type 0
  Claims w v =
      ((w.claims ≡ 0) × ((v.claims ≡ 1) ⊎ (max_concurrent ≤ v.active)))
      ⊎ ((w.claims ≡ 1) × ((claim_ends max_concurrent v).claims ≡ 1))

  tick-Claims : (w : QueueWorker) → IsSafe w → w.stopped ≡ false → Claims w (tick max_concurrent w)
  unfolding begin_pass end_pass tick claim_ends
  tick-Claims w h on = elim (Bool-cases (ltb 0 w.claims)) [
    | inl awaited ↦
        let inside : w.ticking ≡ true = h.in_tick ∙ awaited in
        let one : w.claims ≡ 1 = ground (arith, h.one_claim, awaited) in
        let free : ltb w.active max_concurrent ≡ true = ground (arith, h.slots, one) in
        rw (on, inside, free) (inr (one, omega (arith, one)))
    | inr idle ↦
        let outside : w.ticking ≡ false = h.in_tick ∙ idle in
        let zero : w.claims ≡ 0 = ground (arith, idle) in
        elim (Bool-cases (ltb w.active max_concurrent)) [
          | inl free ↦ rw (on, outside, free) (inl (zero, inl (omega (arith, zero))))
          | inr full ↦ rw (on, outside, full) (inl (zero, inr (ground (arith, full))))
        ]
  ]

  fewer-IsSafe : (w : QueueWorker) → IsSafe w → IsSafe (record w { active = w.active - 1 })
  fewer-IsSafe w h = record {
    slots = omega (arith, h.slots);
    one_claim = h.one_claim;
    in_tick = h.in_tick;
    no_lost_wake = h.no_lost_wake;
  }

  abbrev pub IsServed : QueueWorker → Type 0
  IsServed w =
      IsSafe w
      × ((w.stopped ≡ true)
          ⊎ (Claims w (tick max_concurrent w) × Claims w (job_ends max_concurrent w)))

  -- Under a limit that stays the same, after any wakes, answers of claims, ends of jobs and a stop, in any order,
  -- also while a claim is awaited: the worker executes no more jobs than the limit, that of an awaited claim
  -- counted; it never awaits two claims at once, it is in a tick exactly while it awaits one, and no wake is
  -- pending outside a tick unless it has stopped. And unless it has stopped, neither a wake nor the end of a job
  -- is lost: where no claim is awaited one is begun at once, unless all slots are taken, and where one is
  -- awaited, and finds nothing or throws, another one is begun then.
  pub Reach-IsServed : (w : QueueWorker) → Reach w → IsServed w
  unfolding job_ends
  Reach-IsServed w r =
      let h = Reach-IsSafe w r in
      (
        h,
        elim (Bool-cases w.stopped) [
          | inl over ↦ inl over
          | inr on ↦ inr (
            tick-Claims w h on,
            tick-Claims (record w { active = w.active - 1 }) (fewer-IsSafe w h) on,
          )
        ],
      )
