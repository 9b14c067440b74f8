-- ===== src/Capture/Series.antt =====
-- A series of samples, each with its time since the first one.
use application_monitoring.Prelude.{
  ℕ, ℤ, ◌*◌, ◌≡◌, refl, sym, ◌∙◌, ap, Bool, true, false, List, [], ◌∷◌, ◌++◌, append-nil,
  append_assoc, arith, leb, ◌==◌, if◌then◌else◌, Bool-cases, inl, inr, length, length-append, map,
}
use application_monitoring.Double.{Double}
use application_monitoring.Types.{initial_capacity}
use application_monitoring.Capture.{
  NeoCaptureSample, NeoCaptureSeries, capture_series_init, capture_series_add, started,
  capture_append_sample,
}

-- A call of `capture_append_sample`: its two readings of the clock, and the values.
pub record Call (D : Type 0) : Type 0 where
  pub now : ℤ
  pub later : ℤ
  pub values : NeoCaptureSample D

-- The sample of a call in a series that began at `start`.
abbrev pub sample_at : {D : Type 0} → Double D → ℤ → Call D → NeoCaptureSample D
sample_at F start call = record call.values { elapsed_seconds = F.difftime call.later start }

module _ {D : Type 0} (F : Double D) (room : ℕ → Bool) where
  -- The calls, the first one first.
  unfoldable pub appended : NeoCaptureSeries D → List (Call D) → NeoCaptureSeries D
  appended series [] = series
  appended series (call ∷ calls) =
      appended (capture_append_sample F room call.now call.later series call.values).0 calls

  module _ (has_room : (n : ℕ) → room n ≡ true) where
    capture_series_add_lem :
        (series : NeoCaptureSeries D) (sample : NeoCaptureSample D)
        → let r = (capture_series_add room series sample).0 in
          (r.items ≡ series.items ++ sample ∷ []) × (r.start_time ≡ series.start_time)
    unfolding capture_series_add
    capture_series_add_lem series sample =
        elim (Bool-cases (leb series.capacity (length series.items))) [
          | inl e ↦
              rw
                (
                  capture_series_add,
                  e,
                  has_room (if series.capacity == 0 then initial_capacity else series.capacity * 2),
                )
                (refl, refl)
          | inr e ↦ rw (capture_series_add, e) (refl, refl)
        ]

    -- One call.
    capture_append_sample_lem :
        (series : NeoCaptureSeries D) (call : Call D)
        → let r = (capture_append_sample F room call.now call.later series call.values).0 in
          let begun = started series call.now in
          (r.items ≡ begun.items ++ sample_at F begun.start_time call ∷ [])
          × (r.start_time ≡ begun.start_time)
    unfolding capture_append_sample
    capture_append_sample_lem series call =
        let begun = started series call.now in
        capture_series_add_lem begun (sample_at F begun.start_time call)

    -- In a series that has begun.
    appended-begun :
        (series : NeoCaptureSeries D) (calls : List (Call D))
        → length series.items == 0 ≡ false
        → ((appended series calls).items
            ≡ series.items ++ map (sample_at F series.start_time) calls)
          × ((appended series calls).start_time ≡ series.start_time)
    unfolding appended
    appended-begun series [] h = (sym (append-nil series.items), refl)
    appended-begun series (call ∷ calls) h =
        let next = (capture_append_sample F room call.now call.later series call.values).0 in
        let same : started series call.now ≡ series = rw (started, h) refl in
        let (items, start) = capture_append_sample_lem series call in
        let items' : next.items ≡ series.items ++ sample_at F series.start_time call ∷ [] =
          items ∙ ap (λ b. b.items ++ sample_at F b.start_time call ∷ []) same in
        let start' : next.start_time ≡ series.start_time = start ∙ ap (λ b. b.start_time) same in
        let (later, stays) = appended-begun next calls (
          rw (items', length-append series.items (sample_at F series.start_time call ∷ []))
            (ground arith)) in
        (
          later
              ∙ (rw (items', start')
                  (append_assoc series.items (sample_at F series.start_time call ∷ [])
                    (map (sample_at F series.start_time) calls))),
          stays ∙ start',
        )

    -- Where memory can be had, a series that starts empty has one sample for each call, in their order and
    -- with their values, and the elapsed time of each is the time since the first call.
    pub capture_append_sample-appended :
        (first : Call D) (calls : List (Call D))
        → ((appended capture_series_init (first ∷ calls)).items
            ≡ map (sample_at F first.now) (first ∷ calls))
          × ((appended capture_series_init (first ∷ calls)).start_time ≡ first.now)
    unfolding appended
    capture_append_sample-appended first calls =
        let next =
          (capture_append_sample F room first.now first.later capture_series_init first.values).0 in
        let (items, start) = capture_append_sample_lem capture_series_init first in
        let (later, stays) = appended-begun next calls (rw items refl) in
        (later ∙ rw (items, start) refl, stays ∙ start)
