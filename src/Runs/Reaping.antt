-- ===== src/Runs/Reaping.antt =====
-- The sweep of runReaper.ts and the rule of `assertNoActiveScan` find the same runs stale, and the
-- sweep leaves none.
use dragnet.Prelude.{
  ℕ, ◌-◌, Bool, false, ◌&&◌, List, [], ◌∷◌, ◌≡◌, refl, ◌∙◌, sym, ap, subst, All, arith, ltb,
  count_where, Bool-cases, inl, inr,
}
use mathlib.Core.Path.{fun_ext}
use dragnet.Database.{Table, update_where}
use dragnet.Runs.{ReviewRun, is_in_progress, last_activity, orphaned, is_orphan, reap_stale_runs}

-- the test of `assertNoActiveScan`, of a row that is in progress
abbrev pub is_stale : ℕ → ℕ → ReviewRun → Bool
is_stale stale_after_ms now run =
    is_in_progress run.status && ltb stale_after_ms (now - last_activity run)

pub is_orphan-is_stale :
    (stale_after_ms now : ℕ) (run : ReviewRun)
    → is_orphan (now - stale_after_ms) run ≡ is_stale stale_after_ms now run
unfolding is_orphan last_activity
is_orphan-is_stale s now run = ground arith

orphaned_not_orphan : (c now : ℕ) (run : ReviewRun) → is_orphan c (orphaned now run) ≡ false
unfolding is_orphan
orphaned_not_orphan c now run = refl

none_orphan :
    (c now : ℕ) (rs : List ReviewRun)
    → All (λ r. is_orphan c r ≡ false) (update_where (is_orphan c) (orphaned now) rs)
none_orphan c now [] = tt
none_orphan c now (r ∷ rs) = (
  elim (Bool-cases (is_orphan c r)) [ inl e ↦ rw e (orphaned_not_orphan c now r) | inr e ↦ rw e e ],
  none_orphan c now rs,
)

count_none :
    (p : ReviewRun → Bool) (rs : List ReviewRun) → All (λ r. p r ≡ false) rs → count_where p rs ≡ 0
count_none p [] h = refl
count_none p (r ∷ rs) h = ground (arith, count_none p rs)

same_test :
    (stale_after_ms now : ℕ) → is_orphan (now - stale_after_ms) ≡ is_stale stale_after_ms now
same_test s now = fun_ext (is_orphan-is_stale s now)

module _ (T : Table ReviewRun) (stale_after_ms now : ℕ) (t : T.Rows) where
  -- The sweep marks failed exactly the in-progress runs that the on-demand guard finds stale, it
  -- leaves every other row as it was, and after it the guard finds no stale run, so that a second
  -- sweep at the same time writes no row.
  pub reap_stale_runs-clean :
      let after = (reap_stale_runs T stale_after_ms now t).1 in
      (T.rows after ≡ update_where (is_stale stale_after_ms now) (orphaned now) (T.rows t))
      × All (λ r. is_stale stale_after_ms now r ≡ false) (T.rows after)
      × ((reap_stale_runs T stale_after_ms now after).0 ≡ 0)
  unfolding reap_stale_runs
  reap_stale_runs-clean =
      let c = now - stale_after_ms in
      let swept = T.update_many-rows (is_orphan c) (orphaned now) t in
      let after = (T.update_many (is_orphan c) (orphaned now) t).1 in
      let none_left : All (λ r. is_orphan c r ≡ false) (T.rows after) =
        subst (All (λ r. is_orphan c r ≡ false)) (sym swept) (none_orphan c now (T.rows t)) in
      (
        swept ∙ ap (λ p. update_where p (orphaned now) (T.rows t)) (same_test stale_after_ms now),
        subst (λ p. All (λ r. p r ≡ false) (T.rows after)) (same_test stale_after_ms now) none_left,
        T.update_many-count (is_orphan c) (orphaned now) after
            ∙ count_none (is_orphan c) (T.rows after) none_left,
      )
