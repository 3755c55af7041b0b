-- ===== src/Credit/Prefix.antt =====
-- The accepted prefix of core/credit.go, under advanceLowLocked.
use mbta_go.Base.{ℕ, suc, zero, ◌+◌, ◌^◌, ◌≤◌, ◌<◌, ◌≡◌, refl, ◌∙◌, Bool, true, false, ◌||◌}
use mbta_go.Base.{
  ltb, add64, Map, lookup, delete, nat_eq, length, lookup-delete, arith, inl, inr, [], ◌∷◌,
}
use mbta_go.Base.{length-delete_present, Bool-cases, Option-cases}
use mbta_go.Credit.Manager.{CreditManager, is_covered, flag, advance, advance_low}

abbrev covered : ℕ → ℕ → Map ℕ Bool → Bool
covered k low accepted = flag k accepted || ltb k low

flag-length : (k : ℕ) (m : Map ℕ Bool) → flag k m ≡ true → length (delete k m) < length m
flag-length k m h = elim (Option-cases (lookup k m)) [
  | inl e ↦ absurd (ground arith)
  | inr (b, e) ↦ length-delete_present k b m e
]

covered_step :
    (k low : ℕ) (accepted : Map ℕ Bool)
    → flag low accepted ≡ true
    → covered k (low + 1) (delete low accepted) ≡ covered k low accepted
covered_step k low accepted h = ground (arith, lookup-delete low k accepted)

-- What a run of the loop from `low` and `accepted` gives.
record IsAdvanced (low : ℕ) (accepted : Map ℕ Bool) (r : ℕ × Map ℕ Bool) : Type 0 where
  pub grows : low ≤ r.0
  pub budget : r.0 + length r.1 ≤ low + length accepted
  pub same : (k : ℕ) → covered k r.0 r.1 ≡ covered k low accepted
  pub stops : flag r.0 r.1 ≡ false

advance-IsAdvanced :
    (fuel low : ℕ) (accepted : Map ℕ Bool)
    → length accepted ≤ fuel
    → low + length accepted < 2 ^ 64
    → IsAdvanced low accepted (advance fuel low accepted)
unfolding advance
advance-IsAdvanced zero low [] h b = record {
  grows = omega arith;
  budget = omega arith;
  same = λ k. refl;
  stops = unfold lookup in refl;
}
advance-IsAdvanced zero low (x ∷ xs) h b = absurd (omega arith)
advance-IsAdvanced (suc fuel) low accepted h b = elim (Bool-cases (flag low accepted)) [
  | inr e ↦ rw e (record { grows = omega arith; budget = omega arith; same = λ k. refl; stops = e })
  | inl e ↦
      let shorter = flag-length low accepted e in
      let next : add64 low 1 ≡ low + 1 = omega arith in
      let ih =
        advance-IsAdvanced fuel (low + 1) (delete low accepted) (omega arith) (omega arith) in
      rw (e, next)
        (record {
          grows = omega (arith, ih.grows);
          budget = omega (arith, ih.budget);
          same = λ k. ih.same k ∙ covered_step k low accepted e;
          stops = ih.stops;
        })
]

-- The loop of `advance_low` ends at a seq that is not accepted; it never lowers `low`; and it changes
-- for no seq whether the manager counts it as accepted already, as long as seqs stay under 2 ^ 64.
pub advance_low_exact :
    (m : CreditManager)
    → m.low + length m.accepted < 2 ^ 64
    → let m' = advance_low m in
      (flag m'.low m'.accepted ≡ false)
      × (m.low ≤ m'.low)
      × ((k : ℕ) → is_covered m' k ≡ is_covered m k)
unfolding advance_low
advance_low_exact m h =
    let a = advance-IsAdvanced (length m.accepted) m.low m.accepted (omega arith) h in
    (a.stops, a.grows, a.same)

pub advance_low-budget :
    (m : CreditManager)
    → m.low + length m.accepted < 2 ^ 64
    → (advance_low m).low + length (advance_low m).accepted ≤ m.low + length m.accepted
unfolding advance_low
advance_low-budget m h =
    (advance-IsAdvanced (length m.accepted) m.low m.accepted (omega arith) h).budget
