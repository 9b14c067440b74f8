-- ===== src/Log/Sinks.antt =====
-- The sink table: registration is bounded by the table, and removal undoes it.
use application_monitoring.Prelude.{
  suc, ◌+◌, ◌≤◌, ◌<◌, ◌≡◌, ◌≢◌, ◌⊎◌, refl, ap, true, false, List, [], ◌∷◌, Option, none, some,
  arith, ltb, Option-cases, inl, inr, length, Any,
}
use application_monitoring.Log.{
  NeoLogSinkSlot, LogState, same_slot, sinks_copy, fill_slot, clear_slot, log_add_sink,
  log_remove_sink, neo_log_max_sinks,
}

-- The slots in use, in the order of the table.
unfoldable pub registered : LogState → List NeoLogSinkSlot
unfolding sinks_copy
registered s = sinks_copy s.sinks

length-sinks_copy : (t : List (Option NeoLogSinkSlot)) → length (sinks_copy t) ≤ length t
unfolding sinks_copy
length-sinks_copy [] = omega arith
length-sinks_copy (none ∷ t) = omega (arith, length-sinks_copy t)
length-sinks_copy (some slot ∷ t) = omega (arith, length-sinks_copy t)

fill_slot-length :
    (slot : NeoLogSinkSlot) (t : List (Option NeoLogSinkSlot))
    → ((fill_slot slot t ≡ none) × (length (sinks_copy t) ≡ length t))
      ⊎ ((u : List (Option NeoLogSinkSlot)) × (fill_slot slot t ≡ some u)
          × (length u ≡ length t)
          × (length (sinks_copy u) ≡ length (sinks_copy t) + 1)
          × (length (sinks_copy t) < length t))
unfolding fill_slot sinks_copy
fill_slot-length slot [] = inl (refl, refl)
fill_slot-length slot (none ∷ t) =
    inr (some slot ∷ t, refl, refl, omega arith, omega (arith, length-sinks_copy t))
fill_slot-length slot (some other ∷ t) = elim (fill_slot-length slot t) [
  | inl (e, n) ↦ inl (rw e, ap suc n)
  | inr (u, e, same, more, less) ↦
      inr (some other ∷ u, rw e, ap suc same, omega (arith, more), omega (arith, less))
]

not_same : (a b : NeoLogSinkSlot) → ¬ (a ≡ b) → same_slot a b ≡ false
not_same a b h = ground arith

clear_slot-fill_slot :
    (slot : NeoLogSinkSlot) (t u : List (Option NeoLogSinkSlot))
    → ¬ (Any (λ other. other ≡ slot) (sinks_copy t))
    → fill_slot slot t ≡ some u
    → clear_slot slot u ≡ t
unfolding fill_slot clear_slot sinks_copy
clear_slot-fill_slot slot [] u absent h = cc
clear_slot-fill_slot slot (none ∷ t) u absent h =
    let e : u ≡ some slot ∷ t = ground arith in rw e (ground arith)
clear_slot-fill_slot slot (some other ∷ t) u absent h = elim (Option-cases (fill_slot slot t)) [
  | inl e ↦ absurd (ground (arith, e))
  | inr (u', e) ↦
      let f : u ≡ some other ∷ u' = ground (arith, e) in
      let differs : same_slot other slot ≡ false = not_same other slot (λ q. absent (inl q)) in
      rw (f, differs)
        (ap (λ r. some other ∷ r) (clear_slot-fill_slot slot t u' (λ a. absent (inr a)) e))
]

-- A registration that succeeds is undone by its removal, if the pair was not registered before.
pub log_remove_sink-log_add_sink :
    (slot : NeoLogSinkSlot) (s : LogState)
    → ¬ (Any (λ other. other ≡ slot) (registered s))
    → (log_add_sink slot s).1 ≡ true
    → log_remove_sink slot (log_add_sink slot s).0 ≡ s
unfolding log_remove_sink log_add_sink registered
log_remove_sink-log_add_sink slot s absent added = elim (Option-cases (fill_slot slot s.sinks)) [
  | inl e ↦ absurd (ground (arith, e))
  | inr (u, e) ↦ let back = clear_slot-fill_slot slot s.sinks u absent e in ground (arith, e, back)
]

-- With a table of four slots, a sink is registered exactly if fewer than four are, and then the
-- table still has four slots and one more of them is in use; a refusal leaves the log as it was.
pub log_add_sink_bounded :
    (slot : NeoLogSinkSlot) (s : LogState)
    → slot.sink ≢ 0
    → length s.sinks ≡ neo_log_max_sinks
    → let (s', added) = log_add_sink slot s in
      (added ≡ ltb (length (registered s)) neo_log_max_sinks)
      × (length s'.sinks ≡ neo_log_max_sinks)
      × (((added ≡ true) × (length (registered s') ≡ length (registered s) + 1))
          ⊎ ((added ≡ false) × (s' ≡ s)))
unfolding log_add_sink registered
log_add_sink_bounded slot s given four = elim (fill_slot-length slot s.sinks) [
  | inl (e, n) ↦ ground (arith, e, n)
  | inr (u, e, same, more, less) ↦ ground (arith, e, same, more, less)
]
