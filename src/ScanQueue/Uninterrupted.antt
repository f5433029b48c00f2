-- ===== src/ScanQueue/Uninterrupted.antt =====
-- A call of `claimNextScanJob` (src/services/scanQueue.ts) that no other worker interrupts: its queries one by one come to
-- the answer of `claim_next`.
use dragnet.Prelude.{
  ℕ, zero, suc, ◌+◌, String, ◌&&◌, Option, none, some, List, [], ◌∷◌, leb, eqb, ◌==◌, ◌≡◌, refl,
  sym, subst, Bool-cases, Option-cases, inl, inr,
}
use dragnet.Database.{Table, RowOrder}
use dragnet.ScanQueue.{Job, is_queued, queue_order}
use dragnet.ScanQueue.Claim.{
  Claimed, no_fuel, nothing, claimed, start, is_live, is_candidate, at_repo_limit, try_claim,
  claim_round, claim_loop, claim_prepared, claim_next, prepare,
}
use dragnet.ScanQueue.Interleaving.{
  ClaimPhase, recovering, normalizing, counting, finding, limiting, writing, ended, claim_step,
}

module _ (J : Table Job) (ids : RowOrder String) (repo_limit : String → Option ℕ) (worker : String)
    (max_concurrent now lease_ms : ℕ) where
  abbrev step : ClaimPhase → J.Rows → ClaimPhase × J.Rows
  step = claim_step J ids repo_limit worker max_concurrent now lease_ms

  -- so many queries in a row
  abbrev pub queries : ℕ → ClaimPhase → J.Rows → ClaimPhase × J.Rows
  queries zero phase t = (phase, t)
  queries (suc n) phase t = let (after, t') = step phase t in queries n after t'

  -- the call ends with this answer; nothing is said of one that is out of fuel
  abbrev pub Comes : ClaimPhase → J.Rows → Claimed J.Rows → Type 0
  Comes phase t no_fuel = Unit
  Comes phase t (nothing t') = (n : ℕ) × (queries n phase t ≡ (ended none, t'))
  Comes phase t (claimed job t') = (n : ℕ) × (queries n phase t ≡ (ended (some job), t'))

  earlier :
      (phase : ClaimPhase) (t : J.Rows) (c : Claimed J.Rows)
      → let (after, t') = step phase t in Comes after t' c → Comes phase t c
  earlier phase t no_fuel h = tt
  earlier phase t (nothing t') (n, h) = (suc n, h)
  earlier phase t (claimed job t') (n, h) = (suc n, h)

  goes :
      (phase after : ClaimPhase) (t t' : J.Rows) (c : Claimed J.Rows)
      → step phase t ≡ (after, t')
      → Comes after t' c
      → Comes phase t c
  goes phase after t t' c e h =
      earlier phase t c (subst (λ (r : ClaimPhase × J.Rows). Comes r.0 r.1 c) (sym e) h)

  try_claim-Comes :
      (again : List String → J.Rows → Claimed J.Rows) (excluded : List String) (next : Job)
      (t : J.Rows)
      → ((e : List String) (u : J.Rows) → Comes (finding e) u (again e u))
      → Comes
          (limiting excluded next)
          t
          (try_claim J ids repo_limit worker max_concurrent now lease_ms again excluded next t)
  unfolding try_claim claim_step
  try_claim-Comes again excluded next t h =
      let lost = next.id ∷ excluded in
      let taken = start worker now (now + lease_ms) next in
      let (written, t') =
        J.update_many (λ j. j.id == next.id && is_queued j.state)
          (start worker now (now + lease_ms)) t in
      elim (Bool-cases (at_repo_limit J repo_limit max_concurrent now next t)) [
        | inl full ↦
            rw (full, try_claim)
              (goes (limiting excluded next) (finding lost) t t (again lost t)
                (rw (full, claim_step) refl) (h lost t))
        | inr free ↦ elim (Bool-cases (eqb written 1)) [
          | inl one ↦
              rw (free, one, try_claim)
                (goes (limiting excluded next) (writing excluded next) t t (claimed taken t')
                  (rw (free, claim_step) refl)
                  (goes (writing excluded next) (ended (some taken)) t t' (claimed taken t')
                    (rw (one, claim_step) refl) (0, refl)))
          | inr raced ↦
              rw (free, raced, try_claim)
                (goes (limiting excluded next) (writing excluded next) t t (again lost t')
                  (rw (free, claim_step) refl)
                  (goes (writing excluded next) (finding lost) t t' (again lost t')
                    (rw (raced, claim_step) refl) (h lost t')))
        ]
      ]

  claim_loop-Comes :
      (fuel : ℕ) (excluded : List String) (t : J.Rows)
      → Comes
          (finding excluded)
          t
          (claim_loop J ids repo_limit worker max_concurrent now lease_ms fuel excluded t)
  unfolding claim_loop claim_round claim_step
  claim_loop-Comes zero excluded t = tt
  claim_loop-Comes (suc fuel) excluded t =
      let again = claim_loop J ids repo_limit worker max_concurrent now lease_ms fuel in
      elim (Option-cases (J.find_first (is_candidate excluded) (queue_order ids) t)) [
        | inl none_left ↦
            rw (none_left, claim_loop, claim_round)
              (goes (finding excluded) (ended none) t t (nothing t)
                (rw (none_left, claim_step) refl) (0, refl))
        | inr (next, found) ↦
            rw (found, claim_loop, claim_round)
              (goes (finding excluded) (limiting excluded next) t t
                (try_claim J ids repo_limit worker max_concurrent now lease_ms again excluded next
                  t)
                (rw (found, claim_step) refl)
                (try_claim-Comes again excluded next t (claim_loop-Comes fuel)))
      ]

  -- Without interruption a call comes to the answer of `claim_next`, and leaves its table.
  pub claim_next-Comes :
      (t : J.Rows)
      → Comes recovering t (claim_next J ids repo_limit worker max_concurrent now lease_ms t)
  unfolding claim_next claim_prepared prepare claim_step
  claim_next-Comes t =
      let t' = prepare J now t in
      let fuel = suc (J.count (λ j. is_queued j.state) t') in
      earlier recovering t _ (
        earlier normalizing _ _ (elim (Bool-cases (leb max_concurrent (J.count (is_live now) t'))) [
          | inl full ↦
              rw full (goes counting (ended none) t' t' (nothing t') (rw full refl) (0, refl))
          | inr free ↦ rw free (
              goes counting (finding []) t' t'
                (claim_loop J ids repo_limit worker max_concurrent now lease_ms fuel [] t')
                (rw free refl) (claim_loop-Comes fuel [] t'))
        ]))
