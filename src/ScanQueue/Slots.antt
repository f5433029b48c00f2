-- ===== src/ScanQueue/Slots.antt =====
-- `claimNextScanJob` as a whole: its answers, and the bounds on the jobs that are live.
use mathlib.Core.Bool.{false≢true}
use dragnet.Prelude.{
  ℕ, suc, ◌+◌, ◌≤◌, ◌<◌, String, Bool, Option, [], ◌≡◌, refl, ap, sym, ◌∙◌, ◌⊎◌, inl, inr,
  All-of_all, arith, leb, leb→le, leb→lt, eq_refl, count_where, count_where_mono, Bool-cases, subst,
}
use dragnet.Prelude.Dict
use dragnet.Database.{Table, RowOrder, update_where}
use dragnet.ScanQueue.{Job, is_queued, wants_priority, normalize_explicit_priorities}
use dragnet.ScanQueue.Claim.{
  Claimed, nothing, claimed, start, back_to_queue, is_live, lease_expired, is_candidate,
  claim_prepared, prepare, claim_next,
}
use dragnet.ScanQueue.Rows.{
  UniqueIds, count_where-id, count_where-update_where, update_where-UniqueIds,
}
use dragnet.ScanQueue.Claims.{Answers, IsTaken, takes, claim_loop-Answers}

abbrev raised : Job → Job
raised job = record job { priority = 10 }

module _ (J : Table Job) (now : ℕ) (t : J.Rows) where
  -- what the first two queries leave
  pub prepare-rows :
      J.rows (prepare J now t)
      ≡ update_where wants_priority raised
          (update_where (lease_expired now) back_to_queue (J.rows t))
  unfolding prepare normalize_explicit_priorities
  prepare-rows =
      J.update_many-rows wants_priority raised (J.update_many (lease_expired now) back_to_queue t).1
      ∙ ap (update_where wants_priority raised)
          (J.update_many-rows (lease_expired now) back_to_queue t)

  pub prepare-UniqueIds : UniqueIds (J.rows t) → UniqueIds (J.rows (prepare J now t))
  prepare-UniqueIds u = subst UniqueIds (sym prepare-rows) (
      update_where-UniqueIds wants_priority raised _ (λ x. refl)
        (update_where-UniqueIds (lease_expired now) back_to_queue (J.rows t) (λ x. refl) u))

module _ (J : Table Job) (ids : RowOrder String) (repo_limit : String → Option ℕ) (worker : String)
    (max_concurrent now lease_ms : ℕ) (t : J.Rows) where
  abbrev live : J.Rows → ℕ
  live t' = count_where (is_live now) (J.rows t')

  abbrev claim : Claimed J.Rows
  claim = claim_next J ids repo_limit worker max_concurrent now lease_ms t

  count-prepared : (t' : J.Rows) → J.count (is_live now) t' ≡ live t'
  count-prepared t' = J.count_lem (is_live now) t'

  enough_fuel :
      (t' : J.Rows)
      → count_where (is_candidate []) (J.rows t') < suc (J.count (λ j. is_queued j.state) t')
  enough_fuel t' = omega (
    arith,
    J.count_lem (λ j. is_queued j.state) t',
    count_where_mono (is_candidate []) (λ j. is_queued j.state) (J.rows t') (λ x h. ground arith),
  )

  claim_prepared-Answers :
      (t' : J.Rows)
      → UniqueIds (J.rows t')
      → let r =
          claim_prepared J ids repo_limit worker max_concurrent now lease_ms
            (suc (J.count (λ j. is_queued j.state) t'))
            t' in
        ((max_concurrent ≤ live t') × (r ≡ nothing t'))
        ⊎ ((live t' < max_concurrent)
            × Answers J ids repo_limit worker max_concurrent now lease_ms t' r)
  unfolding claim_prepared
  claim_prepared-Answers t' u = elim (Bool-cases (leb max_concurrent (J.count (is_live now) t'))) [
    | inl all_taken ↦ inl (omega (arith, leb→le _ _ all_taken, count-prepared t'), rw all_taken)
    | inr free ↦ rw free (
        inr (
          omega (arith, leb→lt _ _ free, count-prepared t'),
          claim_loop-Answers J ids repo_limit worker max_concurrent now lease_ms _ [] t' u
              (unfold Dict.has in All-of_all _ (J.rows t') (λ x h. absurd (false≢true h)))
              (enough_fuel t'),
        ))
  ]

  -- The search always answers. With `max_concurrent` live jobs it takes none; with fewer it takes
  -- the first queued job, by priority, age and id, whose repository is below its own limit, marks
  -- that row and no other as running under the lease, and it takes none only if every queued job is
  -- in a repository at its limit. Expired leases and explicit priorities are put right before.
  pub claim_next-Answers :
      UniqueIds (J.rows t)
      → ((max_concurrent ≤ live (prepare J now t)) × (claim ≡ nothing (prepare J now t)))
        ⊎ ((live (prepare J now t) < max_concurrent)
            × Answers J ids repo_limit worker max_concurrent now lease_ms (prepare J now t) claim)
  unfolding claim_next
  claim_next-Answers u = claim_prepared-Answers (prepare J now t) (prepare-UniqueIds J now t u)

  abbrev takes_of : Job → Job → Bool
  takes_of = takes J ids repo_limit worker max_concurrent now lease_ms

  -- what a claim says of the table that it was made in
  pub claim_next-IsTaken :
      UniqueIds (J.rows t)
      → (j : Job) (t' : J.Rows) → claim ≡ claimed j t'
      → (live (prepare J now t) < max_concurrent)
        × ((next : Job) × IsTaken J ids repo_limit worker max_concurrent now lease_ms
              (prepare J now t)
              next
              j
              t')
  claim_next-IsTaken u j t' e = elim (claim_next-Answers u) [
    | inl (none_free, is_nothing) ↦ cc
    | inr (free, answers) ↦ (
      free,
      subst (Answers J ids repo_limit worker max_concurrent now lease_ms (prepare J now t)) e
          answers,
    )
  ]

  -- A claim under a lease of some length leaves one more live job than there was, and no more than
  -- `max_concurrent`.
  pub live-claim_next :
      UniqueIds (J.rows t)
      → 0 < lease_ms
      → (j : Job) (t' : J.Rows) → claim ≡ claimed j t'
      → (live t' ≡ live (prepare J now t) + 1) × (live t' ≤ max_concurrent)
  live-claim_next u lease j t' e =
      let (free, found) = claim_next-IsTaken u j t' e in
      let (next, k) = found in
      let before = J.rows (prepare J now t) in
      let one_row =
        count_where-id (takes_of next) next before (prepare-UniqueIds J now t u) k.stored
          (ground (arith, eq_refl next.id, k.was_queued)) (λ x h. ground arith) in
      let one_more =
        count_where-update_where (takes_of next) (is_live now) (start worker now (now + lease_ms))
          before (λ x h. (ground arith, ground arith)) in
      let after : live t' ≡ live (prepare J now t) + 1 =
        ap (count_where (is_live now)) k.written
        ∙ one_more
        ∙ ap (λ n. live (prepare J now t) + n) one_row in
      (after, omega arith)
