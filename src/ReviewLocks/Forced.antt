-- ===== src/ReviewLocks/Forced.antt =====
-- A forced acquisition stops the scan of its own pull request and no other (src/lib/reviewLocks.ts).
use dragnet.Prelude.{String, some, ◌≡◌}
use dragnet.ReviewLocks.{Locks, Entry, entry_of, is_aborted}

-- the entry of another pull request, and whether its scan is aborted, are as they were
abbrev IsUntouched : Locks → Locks → String → Entry → Type 0
IsUntouched before after other e =
    (entry_of after other ≡ some e)
    × (is_aborted after.aborted e.controller ≡ is_aborted before.aborted e.controller)
