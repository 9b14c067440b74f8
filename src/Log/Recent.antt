-- ===== src/Log/Recent.antt =====
-- The ring buffer: `log_copy_recent` returns the latest accepted entries, oldest first.
use mathlib.Core.List.{reverse-append}
use application_monitoring.Prelude.{
  ℕ, ℤ, zero, suc, ◌+◌, ◌-◌, ◌%◌, ◌≤◌, ◌<◌, ◌≡◌, refl, ap, ◌∙◌, Bool, List, [], ◌∷◌, ◌++◌, reverse,
  some, arith, leb, ltb, ◌==◌, Bool-cases, take_of_le, inl, inr, true, false, length, get_elem?,
  take, min, if◌then◌else◌,
}
use application_monitoring.Text.{Bytes, copy_bounded}
use application_monitoring.Types.{NeoLogLevel, log_info}
use application_monitoring.Log.{
  NeoLogEntry, NeoLogSinkSlot, LogState, g_log, severity, log_history_capacity, neo_log_message_max,
  log_init, log_shutdown, log_write, copy_entries, log_copy_recent, log_add_sink, log_remove_sink,
  push_history,
}

-- The array holds the latest entries of `l`, which lists all accepted entries, the latest first.
pub record Holds (s : LogState) (l : List NeoLogEntry) : Type 0 where
  pub counted : s.history_count ≡ min (length l) log_history_capacity
  pub placed : s.history_next ≡ length l % log_history_capacity
  pub recent :
      (k : ℕ)
      → k < log_history_capacity
      → k < length l
      → get_elem? l k ≡ some (s.history ((length l - (k + 1)) % log_history_capacity))

-- The invariant is about the array and the two counters alone.
same_ring :
    {s s' : LogState} {l : List NeoLogEntry}
    → s'.history ≡ s.history
    → s'.history_count ≡ s.history_count
    → s'.history_next ≡ s.history_next
    → Holds s l
    → Holds s' l
same_ring p q r h = record {
  counted = q ∙ h.counted;
  placed = r ∙ h.placed;
  recent = λ k small inside. rw p (h.recent k small inside);
}

push_history-Holds :
    (entry : NeoLogEntry) {s : LogState} {l : List NeoLogEntry}
    → Holds s l
    → Holds (push_history entry s) (entry ∷ l)
unfolding push_history
push_history-Holds entry {s} {l} h = record {
  counted = ground (arith, h.counted);
  placed = omega (arith, h.placed);
  recent = at;
}
  where
    at :
        (k : ℕ)
        → k < log_history_capacity
        → k < length (entry ∷ l)
        → get_elem? (entry ∷ l) k
          ≡ some (
              (push_history entry s).history
                ((length (entry ∷ l) - (k + 1)) % log_history_capacity))
    at zero small inside = ground (arith, h.placed)
    at (suc k) small inside = ground (arith, h.placed, h.recent k (omega arith) (omega arith))

take-suc {ℓ} :
    {A : Type ℓ} (c : ℕ) (l : List A) (x : A)
    → get_elem? l c ≡ some x
    → take (suc c) l ≡ take c l ++ x ∷ []
take-suc c [] x h = cc
take-suc zero (y ∷ l) x h = ground arith
take-suc (suc c) (y ∷ l) x h = ap (λ r. y ∷ r) (take-suc c l x h)

copy_entries-eq :
    (s : LogState) (l : List NeoLogEntry) (c start : ℕ)
    → Holds s l
    → c ≤ length l
    → c ≤ log_history_capacity
    → start % log_history_capacity ≡ (length l - c) % log_history_capacity
    → copy_entries s.history start c ≡ reverse (take c l)
unfolding copy_entries
copy_entries-eq s l zero start h inside small at = refl
copy_entries-eq s l (suc c) start h inside small at =
    rw (take-suc c l (s.history (start % log_history_capacity)) here, reverse-append)
      (ap (λ r. s.history (start % log_history_capacity) ∷ r)
        (copy_entries-eq s l c (start + 1) h (omega arith) (omega arith) (omega arith)))
  where
    here : get_elem? l c ≡ some (s.history (start % log_history_capacity))
    here = ground (arith, h.recent c small inside, at)

-- One call of `log_write` accepts the entry if its level is at least as severe as the threshold.
accept : ℤ → NeoLogLevel → Bytes → NeoLogLevel → List NeoLogEntry → List NeoLogEntry
accept now level formatted threshold l =
    if leb (severity level) (severity threshold)
    then record { when = now; level = level; message = copy_bounded neo_log_message_max formatted }
      ∷ l
    else l

log_write-Holds :
    (now : ℤ) (level : NeoLogLevel) (formatted : Bytes) {s : LogState} {l : List NeoLogEntry}
    → Holds s l
    → Holds (log_write now level formatted s).0 (accept now level formatted s.level l)
unfolding log_write accept
log_write-Holds now level formatted {s} {l} h =
    elim (Bool-cases (leb (severity level) (severity s.level))) [
      | inl e ↦
          let f : ltb (severity s.level) (severity level) ≡ false = ground arith in
          rw (e, f) (push_history-Holds _ (same_ring refl refl refl h))
      | inr e ↦ let f : ltb (severity s.level) (severity level) ≡ true = ground arith in rw (e, f) h
    ]

-- What the program can ask of the log.
pub data LogCall : Type 0 where
  init : Bool → Bytes → NeoLogLevel → LogCall
  shutdown : LogCall
  write : ℤ → NeoLogLevel → Bytes → LogCall
  add_sink remove_sink : NeoLogSinkSlot → LogCall

call : LogCall → LogState → LogState
call (init opens path level) s = (log_init opens path level s).0
call shutdown s = log_shutdown s
call (write now level formatted) s = (log_write now level formatted s).0
call (add_sink slot) s = (log_add_sink slot s).0
call (remove_sink slot) s = log_remove_sink slot s

-- The state after a list of calls, the latest first.
pub run : List LogCall → LogState
run [] = g_log
run (c ∷ calls) = call c (run calls)

-- The threshold in force: that of the latest `log_init`.
pub threshold : List LogCall → NeoLogLevel
threshold [] = log_info
threshold (init opens path level ∷ calls) = level
threshold (c ∷ calls) = threshold calls

accept_call : LogCall → NeoLogLevel → List NeoLogEntry → List NeoLogEntry
accept_call (write now level formatted) limit l = accept now level formatted limit l
accept_call c limit l = l

-- The entries that were accepted, the latest first.
pub accepted : List LogCall → List NeoLogEntry
accepted [] = []
accepted (c ∷ calls) = accept_call c (threshold calls) (accepted calls)

level-run : (calls : List LogCall) → (run calls).level ≡ threshold calls
unfolding run call threshold log_init log_shutdown log_write log_add_sink log_remove_sink
level-run [] = refl
level-run (init opens path level ∷ calls) = ground arith
level-run (shutdown ∷ calls) = level-run calls
level-run (write now level formatted ∷ calls) = ground (arith, level-run calls)
level-run (add_sink slot ∷ calls) = ground (arith, level-run calls)
level-run (remove_sink slot ∷ calls) = level-run calls

call-Holds :
    (c : LogCall) (s : LogState) (l : List NeoLogEntry)
    → Holds s l
    → Holds (call c s) (accept_call c s.level l)
unfolding call accept_call log_init log_shutdown log_add_sink log_remove_sink
call-Holds (init opens path level) s l h = same_ring (ground arith) (ground arith) (ground arith) h
call-Holds shutdown s l h = same_ring refl refl refl h
call-Holds (write now level formatted) s l h = log_write-Holds now level formatted h
call-Holds (add_sink slot) s l h = same_ring (ground arith) (ground arith) (ground arith) h
call-Holds (remove_sink slot) s l h = same_ring refl refl refl h

run-Holds : (calls : List LogCall) → Holds (run calls) (accepted calls)
unfolding run accepted
run-Holds [] = record {
  counted = refl;
  placed = refl;
  recent = λ k small inside. absurd (omega arith);
}
run-Holds (c ∷ calls) =
    rw (← level-run calls) (call-Holds c (run calls) (accepted calls) (run-Holds calls))

take-min-length {ℓ} : {A : Type ℓ} (n : ℕ) (l : List A) → take n l ≡ take (min n (length l)) l
take-min-length n l = elim (Bool-cases (leb n (length l))) [
  | inl e ↦ let f : min n (length l) ≡ n = ground arith in rw f
  | inr e ↦
      let f : min n (length l) ≡ length l = ground arith in
      rw (f, take_of_le n l (ground arith), take_of_le (length l) l (omega arith))
]

-- Whatever calls came before, `log_copy_recent` returns the latest entries that passed the threshold
-- in force when they were written: as many as were asked for, up to 500, oldest first.
pub log_copy_recent-run :
    (calls : List LogCall) (max_count : ℕ)
    → log_copy_recent max_count (run calls)
      ≡ reverse (take (min max_count log_history_capacity) (accepted calls))
unfolding log_copy_recent
log_copy_recent-run calls zero = refl
log_copy_recent-run calls (suc m) = rw (not_zero, copied) (ap reverse same)
  where
    not_zero : (suc m == 0) ≡ false
    not_zero = ground arith

    h : Holds (run calls) (accepted calls)
    h = run-Holds calls

    count : ℕ
    count = if ltb (run calls).history_count (suc m) then (run calls).history_count else suc m

    count_lem : count ≡ min (min (suc m) log_history_capacity) (length (accepted calls))
    count_lem = ground (arith, h.counted)

    copied :
        copy_entries
          (run calls).history
          (((run calls).history_next + log_history_capacity - count) % log_history_capacity)
          count
        ≡ reverse (take count (accepted calls))
    copied =
        copy_entries-eq (run calls) (accepted calls) count _ h (omega (arith, count_lem))
          (omega (arith, count_lem)) (omega (arith, count_lem, h.placed))

    same : take count (accepted calls) ≡ take (min (suc m) log_history_capacity) (accepted calls)
    same = rw (count_lem, ← take-min-length (min (suc m) log_history_capacity) (accepted calls))
