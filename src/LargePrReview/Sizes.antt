-- ===== src/LargePrReview/Sizes.antt =====
-- How large the chunks of src/services/largePrReview/chunker.ts are.
use dragnet.Prelude.{
  ℕ, suc, ◌+◌, ◌≤◌, ◌<◌, String, true, false, ◌&&◌, Option, get_or, List, [], ◌∷◌, ◌++◌, filter,
  ltb, ◌≡◌, ◌⊎◌, refl, sym, ap, subst, arith, Bool-cases, inl, inr, All,
}
use dragnet.Database.{RowOrder}
use dragnet.LargePrReview.{
  FileClassification, ChunkPlan, is_code, lines_of, sort, flush, fill, is_filled, to_plans,
  chunk_diff, chunk_line_cap,
}

-- within the cap, or a single file that is larger
abbrev pub IsBounded : ℕ → List FileClassification → Type 0
IsBounded limit group =
    (lines_of group ≤ limit)
    ⊎ ((file : FileClassification) × ((group ≡ file ∷ []) × (limit < file.line_count)))

-- The first file of the next group does not fit beside this many lines; there is no empty group.
abbrev pub Overflows : ℕ → ℕ → List (List FileClassification) → Type 0
Overflows limit lines [] = Unit
Overflows limit lines ([] ∷ groups) = limit < 0
Overflows limit lines ((file ∷ files) ∷ groups) = limit < lines + file.line_count

abbrev pub IsTight : ℕ → List (List FileClassification) → Type 0
IsTight limit [] = Unit
IsTight limit (group ∷ groups) = Overflows limit (lines_of group) groups × IsTight limit groups

lines_of-append :
    (xs ys : List FileClassification) → lines_of (xs ++ ys) ≡ lines_of xs + lines_of ys
lines_of-append [] ys = omega arith
lines_of-append (x ∷ xs) ys = omega (arith, lines_of-append xs ys)

module _ (limit : ℕ) where
  flush-IsBounded :
      (current : List FileClassification) (groups : List (List FileClassification))
      → lines_of current ≤ limit
      → All (IsBounded limit) groups
      → All (IsBounded limit) (flush current groups)
  flush-IsBounded [] groups small h = h
  flush-IsBounded (file ∷ files) groups small h = (inl small, h)

  room_left :
      (current : List FileClassification) (lines : ℕ) (file : FileClassification)
      → lines_of current ≡ lines
      → ltb limit file.line_count ≡ false
      → (is_filled current && ltb limit (lines + file.line_count)) ≡ false
      → lines + file.line_count ≤ limit
  room_left [] lines file e fits room = ground arith
  room_left (first ∷ others) lines file e fits room = ground arith

  fill-IsBounded :
      (current : List FileClassification) (lines : ℕ) (files : List FileClassification)
      → lines_of current ≡ lines
      → lines ≤ limit
      → All (IsBounded limit) (fill limit current lines files)
  unfolding fill
  fill-IsBounded current lines [] e small = flush-IsBounded current [] (omega (arith, e, small)) tt
  fill-IsBounded current lines (file ∷ rest) e small =
      elim (Bool-cases (ltb limit file.line_count)) [
        | inl big ↦
            rw (big, fill)
              (flush-IsBounded current _ (omega (arith, e, small))
                (inr (file, (refl, ground arith)), fill-IsBounded [] 0 rest refl (omega arith)))
        | inr fits ↦ elim (Bool-cases (is_filled current && ltb limit (lines + file.line_count))) [
          | inl full ↦
              rw (fits, full, fill)
                (
                  inl (omega (arith, e, small)),
                  fill-IsBounded (file ∷ []) file.line_count rest (omega arith) (ground arith),
                )
          | inr room ↦
              rw (fits, room, fill)
                (fill-IsBounded (current ++ file ∷ []) (lines + file.line_count) rest
                  (omega (arith, lines_of-append current (file ∷ []), e))
                  (room_left current lines file e fits room))
        ]
      ]

  -- what the groups start with that `fill` makes from a chunk with a first file
  fill-Overflows :
      (n : ℕ) (first : FileClassification) (others : List FileClassification) (lines : ℕ)
      (files : List FileClassification)
      → limit < n + first.line_count
      → Overflows limit n (fill limit (first ∷ others) lines files)
  unfolding fill
  fill-Overflows n first others lines [] h = h
  fill-Overflows n first others lines (file ∷ rest) h =
      elim (Bool-cases (ltb limit file.line_count)) [
        | inl big ↦ rw (big, fill) h
        | inr fits ↦ elim (Bool-cases (ltb limit (lines + file.line_count))) [
          | inl full ↦ rw (fits, full, fill) h
          | inr room ↦
              rw (fits, room, fill)
                (fill-Overflows n first (others ++ file ∷ []) (lines + file.line_count) rest h)
        ]
      ]

  -- nothing fits beside more lines than the cap
  fill_afresh-Overflows :
      (n : ℕ) (files : List FileClassification)
      → limit < n
      → Overflows limit n (fill limit [] 0 files)
  unfolding fill
  fill_afresh-Overflows n [] h = tt
  fill_afresh-Overflows n (file ∷ rest) h = elim (Bool-cases (ltb limit file.line_count)) [
    | inl big ↦ rw (big, fill) (omega (arith, h))
    | inr fits ↦
        rw (fits, fill) (fill-Overflows n file [] (0 + file.line_count) rest (omega (arith, h)))
  ]

  flush-IsTight :
      (current : List FileClassification) (groups : List (List FileClassification))
      → Overflows limit (lines_of current) groups
      → IsTight limit groups
      → IsTight limit (flush current groups)
  flush-IsTight [] groups o h = h
  flush-IsTight (file ∷ files) groups o h = (o, h)

  full_chunk :
      (current : List FileClassification) (lines : ℕ) (file : FileClassification)
      → (is_filled current && ltb limit (lines + file.line_count)) ≡ true
      → limit < lines + file.line_count
  full_chunk [] lines file full = absurd (ground arith)
  full_chunk (first ∷ others) lines file full = ground arith

  fill-IsTight :
      (current : List FileClassification) (lines : ℕ) (files : List FileClassification)
      → lines_of current ≡ lines
      → IsTight limit (fill limit current lines files)
  unfolding fill
  fill-IsTight current lines [] e = flush-IsTight current [] tt tt
  fill-IsTight current lines (file ∷ rest) e = elim (Bool-cases (ltb limit file.line_count)) [
    | inl big ↦
        rw (big, fill)
          (flush-IsTight current _ (ground arith) (
            fill_afresh-Overflows (file.line_count + 0) rest (ground arith),
            fill-IsTight [] 0 rest refl,
          ))
    | inr fits ↦ elim (Bool-cases (is_filled current && ltb limit (lines + file.line_count))) [
      | inl full ↦
          rw (fits, full, fill)
            (
              fill-Overflows (lines_of current) file [] file.line_count rest
                  (omega (arith, e, full_chunk current lines file full)),
              fill-IsTight (file ∷ []) file.line_count rest (omega arith),
            )
      | inr room ↦
          rw (fits, room, fill)
            (fill-IsTight (current ++ file ∷ []) (lines + file.line_count) rest
              (omega (arith, lines_of-append current (file ∷ []), e)))
    ]
  ]

-- the groups of a plan, and the lines that it states
abbrev pub groups_of : List ChunkPlan → List (List FileClassification)
groups_of [] = []
groups_of (plan ∷ plans) = plan.files ∷ groups_of plans

groups_of-to_plans :
    (n : ℕ) (groups : List (List FileClassification)) → groups_of (to_plans n groups) ≡ groups
unfolding to_plans
groups_of-to_plans n [] = refl
groups_of-to_plans n (group ∷ groups) =
    ap (λ rest. group ∷ rest) (groups_of-to_plans (suc n) groups)

-- Every chunk has at most as many lines as the cap, or is a single file with more; and none is closed
-- early: the first file of the next chunk would take it over the cap, and no chunk is empty after the
-- first.
pub chunk_diff-sizes :
    (locale : RowOrder String) (limit : Option ℕ) (files : List FileClassification)
    → All (IsBounded (get_or limit chunk_line_cap)) (groups_of (chunk_diff locale limit files))
      × IsTight (get_or limit chunk_line_cap) (groups_of (chunk_diff locale limit files))
unfolding chunk_diff
chunk_diff-sizes locale limit files =
    let most = get_or limit chunk_line_cap in
    let sorted = sort locale (filter is_code files) in
    subst (λ groups. All (IsBounded most) groups × IsTight most groups)
      (sym (groups_of-to_plans 1 (fill most [] 0 sorted)))
      (fill-IsBounded most [] 0 sorted refl (omega arith), fill-IsTight most [] 0 sorted refl)
