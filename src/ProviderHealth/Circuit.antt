-- ===== src/ProviderHealth/Circuit.antt =====
-- The state machine of the breaker.
use dragnet.Prelude.{
  ℕ, suc, ltb, if◌then◌else◌, ◌+◌, ◌≤◌, ◌<◌, true, Option, none, some, List, [], ◌∷◌, ◌≡◌, refl,
  ◌↔◌, arith, is_some,
}
use dragnet.ProviderHealth.{
  closed, open_circuit, half_open, Health, decide_state, record_quality_failure, record_success,
  failures_of,
}

-- What holds of a record after `streak` quality failures in a row: below the threshold it is closed,
-- counts them and has no cooldown; from the threshold on it is open and has one.
pub record IsSound (threshold streak : ℕ) (h : Health) : Type 0 where
  pub below : streak < threshold → h.state ≡ closed
  pub from_threshold : threshold ≤ streak → h.state ≡ open_circuit
  pub counted : h.state ≡ closed → h.consecutive_quality_failures ≡ streak
  pub never_opened : h.state ≡ closed → (h.opened_at ≡ none) × (h.cooldown_ends_at ≡ none)
  pub exceeded : h.state ≡ open_circuit → threshold ≤ h.consecutive_quality_failures
  pub cooling :
      h.state ≡ open_circuit → (is_some h.opened_at ≡ true) × (is_some h.cooldown_ends_at ≡ true)

abbrev pub IsSoundRecord : ℕ → ℕ → Option Health → Type 0
IsSoundRecord threshold streak none = streak ≡ 0
IsSoundRecord threshold streak (some h) = IsSound threshold streak h

success-IsSound :
    (threshold now : ℕ) (h : Option Health)
    → 0 < threshold
    → IsSound threshold 0 (record_success h now)
unfolding record_success
success-IsSound threshold now h pos = ground arith

failure-IsSound :
    (threshold streak cooldown_ms now : ℕ) (h : Option Health)
    → 0 < threshold
    → IsSoundRecord threshold streak h
    → IsSound threshold (suc streak) (record_quality_failure h now threshold cooldown_ms)
unfolding record_quality_failure
failure-IsSound threshold streak cooldown_ms now none pos s = ground arith
failure-IsSound threshold streak cooldown_ms now (some h) pos s = ground arith

pub data Outcome : Type 0 where
  success quality_failure : Outcome

-- The outcomes that were recorded for one provider, with their times, the latest first.
abbrev pub History : Type 0
History = List (Outcome × ℕ)

module _ (threshold cooldown_ms : ℕ) where
  unfoldable pub recorded : History → Option Health
  recorded [] = none
  recorded ((success, now) ∷ earlier) = some (record_success (recorded earlier) now)
  recorded ((quality_failure, now) ∷ earlier) =
      some (record_quality_failure (recorded earlier) now threshold cooldown_ms)

-- how many of the latest outcomes are failures
abbrev pub streak : History → ℕ
streak [] = 0
streak ((success, now) ∷ earlier) = 0
streak ((quality_failure, now) ∷ earlier) = suc (streak earlier)

recorded-IsSound :
    (threshold cooldown_ms : ℕ) (h : History)
    → 0 < threshold
    → IsSoundRecord threshold (streak h) (recorded threshold cooldown_ms h)
unfolding recorded
recorded-IsSound threshold cooldown_ms [] pos = refl
recorded-IsSound threshold cooldown_ms ((success, now) ∷ h) pos =
    success-IsSound threshold now (recorded threshold cooldown_ms h) pos
recorded-IsSound threshold cooldown_ms ((quality_failure, now) ∷ h) pos =
    failure-IsSound threshold (streak h) cooldown_ms now (recorded threshold cooldown_ms h) pos
      (recorded-IsSound threshold cooldown_ms h pos)

sound_closed :
    (threshold streak now : ℕ) (h : Option Health)
    → 0 < threshold
    → IsSoundRecord threshold streak h
    → (decide_state h now ≡ closed) ↔ (streak < threshold)
unfolding decide_state
sound_closed threshold streak now none pos s = (λ _. ground arith, λ _. refl)
sound_closed threshold streak now (some h) pos s = (λ e. ground arith, λ e. ground arith)

-- After any outcomes at any times, the circuit is closed at every later reading exactly if fewer than
-- `threshold` of the latest outcomes in a row are quality failures.
pub decide_state-recorded :
    (threshold cooldown_ms : ℕ) (h : History) (now : ℕ)
    → 0 < threshold
    → (decide_state (recorded threshold cooldown_ms h) now ≡ closed) ↔ (streak h < threshold)
decide_state-recorded threshold cooldown_ms h now pos =
    sound_closed threshold (streak h) now (recorded threshold cooldown_ms h) pos
      (recorded-IsSound threshold cooldown_ms h pos)

-- an open record whose cooldown ends at `ends`
abbrev IsOpenUntil : ℕ → Health → Type 0
IsOpenUntil ends h = (h.state ≡ open_circuit) × (h.cooldown_ends_at ≡ some ends)

failure-IsOpenUntil :
    (threshold cooldown_ms now : ℕ) (h : Option Health)
    → threshold ≤ failures_of h + 1
    → IsOpenUntil (now + cooldown_ms) (record_quality_failure h now threshold cooldown_ms)
unfolding record_quality_failure
failure-IsOpenUntil threshold cooldown_ms now none reached = ground arith
failure-IsOpenUntil threshold cooldown_ms now (some h) reached = ground arith

probe-IsOpenUntil :
    (threshold cooldown_ms ends now : ℕ) (h : Health)
    → IsOpenUntil ends h
    → ends ≤ now
    → IsOpenUntil (now + cooldown_ms) (record_quality_failure (some h) now threshold cooldown_ms)
unfolding record_quality_failure
probe-IsOpenUntil threshold cooldown_ms ends now h o cooled = ground arith

decide_state-IsOpenUntil :
    (ends now : ℕ) (h : Health)
    → IsOpenUntil ends h
    → decide_state (some h) now ≡ (if ltb now ends then open_circuit else half_open)
unfolding decide_state
decide_state-IsOpenUntil ends now h o = ground arith

-- A quality failure that leaves the circuit open keeps it open up to the end of the cooldown and
-- half-open from then on; a success closes it, and a quality failure once the cooldown is over opens
-- it for a whole cooldown again.
record_quality_failure-cooldown :
    (threshold cooldown_ms opened later probe again : ℕ) (h : Option Health)
    → threshold ≤ failures_of h + 1
    → opened + cooldown_ms ≤ probe
    → let failed = some (record_quality_failure h opened threshold cooldown_ms) in
      let reopened = some (record_quality_failure failed probe threshold cooldown_ms) in
      (decide_state failed later
        ≡ (if ltb later (opened + cooldown_ms) then open_circuit else half_open))
      × (decide_state (some (record_success failed probe)) again ≡ closed)
      × (decide_state reopened again
          ≡ (if ltb again (probe + cooldown_ms) then open_circuit else half_open))
record_quality_failure-cooldown threshold cooldown_ms opened later probe again h reached cooled =
    let failed = record_quality_failure h opened threshold cooldown_ms in
    let first = failure-IsOpenUntil threshold cooldown_ms opened h reached in
    (
      decide_state-IsOpenUntil (opened + cooldown_ms) later failed first,
      unfold decide_state record_success in refl,
      decide_state-IsOpenUntil (probe + cooldown_ms) again _ (
          probe-IsOpenUntil threshold cooldown_ms (opened + cooldown_ms) probe failed first cooled),
    )
