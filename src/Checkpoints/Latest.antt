-- ===== src/Checkpoints/Latest.antt =====
-- What a resumed scan reads (src/services/durableScanState.ts).
use dragnet.Prelude.{
  ℕ, ◌≤◌, max, String, Bool, true, false, ◌&&◌, Option, none, some, List, [], ◌∷◌, ltb, ◌==◌,
  if◌then◌else◌, ◌≡◌, refl, sym, subst, ◌∙◌, arith, Bool-cases, Option-cases, inl, inr, eq_iff,
}
use dragnet.Checkpoints.{
  CheckpointTable, CheckpointState, ReviewCheckpoint, row_of, is_kept, persist_review_checkpoint,
  persist_all, read_latest_review_checkpoint,
}

-- a row says of its state what it is
abbrev IsOwn : (CheckpointState → String) → Option ReviewCheckpoint → Type 0
IsOwn hash_json none = Unit
IsOwn hash_json (some row) =
    (row.state_hash ≡ hash_json row.state) × (row.loop_count ≡ row.state.loop_count)

-- how far a checkpoint is, 0 for none
abbrev progress : Option ReviewCheckpoint → ℕ
progress none = 0
progress (some row) = row.loop_count

abbrev pub progress_of : Option CheckpointState → ℕ
progress_of none = 0
progress_of (some state) = state.loop_count

module _ (C : CheckpointTable) (hash_json : CheckpointState → String)
    (apart : (a b : CheckpointState)
      → (hash_json a == hash_json b) ≡ true
      → a.loop_count ≡ b.loop_count)
    (run_id checkpoint_id : String) where
  abbrev pub is_of : CheckpointState → Bool
  is_of state = state.run_id == run_id && state.checkpoint_id == checkpoint_id

  abbrev find : C.Rows → Option ReviewCheckpoint
  find t = C.find_unique run_id checkpoint_id t

  -- the furthest of the states with the key
  abbrev pub furthest : List CheckpointState → ℕ
  furthest [] = 0
  furthest (state ∷ states) =
      let rest = furthest states in if is_of state then max state.loop_count rest else rest

  kept-furthest :
      (o : Option ReviewCheckpoint) (state : CheckpointState)
      → IsOwn hash_json o
      → is_kept C hash_json o state ≡ true
      → state.loop_count ≤ progress o
  kept-furthest none state own kept = cc
  kept-furthest (some row) state own kept =
      elim (Bool-cases (ltb state.loop_count row.loop_count)) [
        | inl less ↦ ground (arith, less)
        | inr more ↦
            let same : (hash_json row.state == hash_json state) ≡ true =
              subst (λ h. (h == hash_json state) ≡ true) own.0 (ground (arith, more, kept)) in
            omega (arith, own.1, apart row.state state same)
      ]

  written-furthest :
      (o : Option ReviewCheckpoint) (state : CheckpointState)
      → is_kept C hash_json o state ≡ false
      → progress o ≤ state.loop_count
  written-furthest none state new = omega arith
  written-furthest (some row) state new = ground (arith, new)

  find_same :
      (state : CheckpointState) (t : C.Rows)
      → is_of state ≡ true
      → C.find_unique state.run_id state.checkpoint_id t ≡ find t
  find_same state t mine =
      grind (arith, mine, eq_iff state.run_id run_id, eq_iff state.checkpoint_id checkpoint_id)

  -- what a checkpoint may become
  abbrev Becomes : CheckpointState → Option ReviewCheckpoint → Option ReviewCheckpoint → Type 0
  Becomes state before after =
      (progress after
        ≡ (if is_of state then max state.loop_count (progress before) else progress before))
      × IsOwn hash_json after

  kept_mine :
      (state : CheckpointState) (o : Option ReviewCheckpoint)
      → is_of state ≡ true
      → IsOwn hash_json o
      → is_kept C hash_json o state ≡ true
      → Becomes state o o
  kept_mine state o mine own kept = rw mine (ground (arith, kept-furthest o state own kept), own)

  written_mine :
      (state : CheckpointState) (o : Option ReviewCheckpoint)
      → is_of state ≡ true
      → is_kept C hash_json o state ≡ false
      → Becomes state o (some (row_of C hash_json state))
  written_mine state o mine new =
      rw mine (ground (arith, written-furthest o state new), (refl, refl))

  find-persist :
      (state : CheckpointState) (t : C.Rows)
      → IsOwn hash_json (find t)
      → Becomes state (find t) (find (persist_review_checkpoint C hash_json state t))
  unfolding persist_review_checkpoint
  find-persist state t own = elim (Bool-cases (is_of state)) [
    | inl mine ↦
        let here : C.find_unique state.run_id state.checkpoint_id t ≡ find t =
          find_same state t mine in
        elim (Bool-cases (is_kept C hash_json (find t) state)) [
          | inl kept ↦
              rw (here, kept, persist_review_checkpoint) (kept_mine state (find t) mine own kept)
          | inr new ↦
              let stored : find (persist_review_checkpoint C hash_json state t)
                  ≡ some (row_of C hash_json state) =
                rw (here, new, persist_review_checkpoint, C.find_unique-upsert, mine) refl in
              subst (Becomes state (find t)) (sym stored) (written_mine state (find t) mine new)
        ]
    | inr other ↦
        elim (Bool-cases
          (is_kept C hash_json (C.find_unique state.run_id state.checkpoint_id t) state)) [
            | inl kept ↦ rw (other, kept, persist_review_checkpoint) (refl, own)
            | inr new ↦ rw (new, persist_review_checkpoint, C.find_unique-upsert, other) (refl, own)
          ]
  ]

  -- of states in one order
  persist_all-furthest :
      (states : List CheckpointState) (t : C.Rows)
      → IsOwn hash_json (find t)
      → (progress (find (persist_all C hash_json states t))
          ≡ max (furthest states) (progress (find t)))
        × IsOwn hash_json (find (persist_all C hash_json states t))
  unfolding persist_all
  persist_all-furthest [] t own = (omega arith, own)
  persist_all-furthest (state ∷ states) t own =
      let (once, own_once) = find-persist state t own in
      let (all, own_all) =
        persist_all-furthest states (persist_review_checkpoint C hash_json state t) own_once in
      (ground (arith, once, all), own_all)

  progress_of-read :
      (t : C.Rows)
      → IsOwn hash_json (find t)
      → progress_of (read_latest_review_checkpoint C run_id checkpoint_id t) ≡ progress (find t)
  unfolding read_latest_review_checkpoint
  progress_of-read t own = elim (Option-cases (find t)) [
    | inl nothing ↦ rw (nothing, read_latest_review_checkpoint) refl
    | inr (row, hit) ↦
        rw (hit, read_latest_review_checkpoint) (sym (subst (IsOwn hash_json) hit own).1)
  ]

  -- Checkpoints of any number of scans are stored one after the other, in any order, and some twice. Where
  -- nothing is stored yet for a scan's checkpoint and states of equal hash are equally far on, a scan that resumes
  -- reads the state that is furthest on.
  pub read_latest_review_checkpoint-furthest :
      (states : List CheckpointState) (t : C.Rows)
      → C.find_unique run_id checkpoint_id t ≡ none
      → progress_of
          (read_latest_review_checkpoint C run_id checkpoint_id (persist_all C hash_json states t))
        ≡ furthest states
  read_latest_review_checkpoint-furthest states t empty =
      let (far, own) = persist_all-furthest states t (subst (IsOwn hash_json) (sym empty) tt) in
      progress_of-read (persist_all C hash_json states t) own ∙ (far ∙ rw empty (omega arith))
