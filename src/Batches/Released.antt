-- ===== src/Batches/Released.antt =====
-- What releaseStuck of internal/protocol/handler_batch.go leaves in flight, and what it sends.
use mbta_go.Base.{
  ℕ, zero, suc, ◌+◌, ◌≤◌, ◌≡◌, ◌≢◌, ap, refl, sym, ◌∙◌, List, [], ◌∷◌, ◌++◌, map, Bool, true, false,
  if◌then◌else◌,
}
use mbta_go.Base.{
  ltb, eqb, eqb_iff, append_assoc, Option, none, some, ◌⊎◌, inl, inr, Map, lookup, delete, nat_eq,
  length, arith,
}
use mbta_go.Base.{Option-cases, lookup-delete, delete-Unique, length-delete_exact, Unique}
use mbta_go.Credit.Manager.{
  CreditManager, InflightSlot, oldest_from, oldest_before, force_settle, level_released, pending,
  reaper_grant, advance_low, settled,
}
use mbta_go.Credit.Dedup.{settle_live}
use mbta_go.Batches.{Handler, Control, result_frame}
use mbta_go.Batches.Reaper.{release_one, release_loop, release_stuck}
use mbta_go.Batches.Sink.{send_results, maybe_schedule_flush}

-- A slot that is as young as the cutoff.
abbrev pub young : ℕ → Option InflightSlot → Option InflightSlot
young cutoff none = none
young cutoff (some s) = if ltb s.added_at cutoff then none else some s

abbrev is_old : ℕ → Option (ℕ × InflightSlot) → Bool
is_old cutoff none = true
is_old cutoff (some (seq, s)) = ltb s.added_at cutoff

-- What OldestBefore finds is old, and stands in the map or was found before.
oldest_from_found :
    (cutoff : ℕ) (best : Option (ℕ × InflightSlot)) (m : Map ℕ InflightSlot) (seq : ℕ)
    (s : InflightSlot)
    → Unique m
    → is_old cutoff best ≡ true
    → oldest_from cutoff best m ≡ some (seq, s)
    → (ltb s.added_at cutoff ≡ true) × ((best ≡ some (seq, s)) ⊎ (lookup seq m ≡ some s))
unfolding oldest_from lookup
oldest_from_found cutoff best [] seq s u o h = ground arith
oldest_from_found cutoff none ((k, t) ∷ m) seq s u o h = ground (
  arith,
  oldest_from_found cutoff (some (k, t)) m seq s u.1,
  oldest_from_found cutoff none m seq s u.1,
)
oldest_from_found cutoff (some (j, r)) ((k, t) ∷ m) seq s u o h = ground (
  arith,
  oldest_from_found cutoff (some (k, t)) m seq s u.1,
  oldest_from_found cutoff (some (j, r)) m seq s u.1,
)

oldest_from-some :
    (cutoff j : ℕ) (r : InflightSlot) (m : Map ℕ InflightSlot)
    → oldest_from cutoff (some (j, r)) m ≢ none
unfolding oldest_from
oldest_from-some cutoff j r [] h = cc
oldest_from-some cutoff j r ((k, t) ∷ m) h =
    ground (arith, oldest_from-some cutoff k t m, oldest_from-some cutoff j r m)

oldest_from-none :
    (cutoff : ℕ) (m : Map ℕ InflightSlot) (k : ℕ)
    → oldest_from cutoff none m ≡ none
    → lookup k m ≡ young cutoff (lookup k m)
unfolding oldest_from lookup
oldest_from-none cutoff [] k h = refl
oldest_from-none cutoff ((j, t) ∷ m) k h =
    ground (arith, oldest_from-some cutoff j t m, oldest_from-none cutoff m k)

-- The frame that answers a slot.
abbrev pub released_frame : ℕ → ℕ × InflightSlot → Control
released_frame code (seq, s) = result_frame (record {
  ref_seq = seq;
  level = level_released;
  code = code;
  retry_hint_ms = 1000;
  correlation = s.correlation;
})

force_settle_seen :
    (m : CreditManager) (seq code frame_bytes : ℕ) (s : InflightSlot)
    → lookup seq m.seen ≡ some s
    → let r = force_settle m seq level_released code 1000 frame_bytes in
      (r.0.seen ≡ delete seq m.seen) × (map result_frame r.1 ≡ released_frame code (seq, s) ∷ [])
unfolding force_settle settled advance_low
force_settle_seen m seq code frame_bytes s h =
    rw (h, force_settle, settle_live m (reaper_grant seq) level_released code 1000 _ s refl h)
      (refl, refl)

-- A slot that is older than the cutoff.
abbrev pub old : ℕ → Option InflightSlot → Option InflightSlot
old cutoff none = none
old cutoff (some s) = if ltb s.added_at cutoff then some s else none

-- How the loop leaves a manager's slots, and which it has taken, in the order of their frames.
pub record IsReleased {S : Type 0} (cutoff code : ℕ) (h n : Handler S) : Type 0 where
  pub released : Map ℕ InflightSlot
  pub complete : (k : ℕ) → lookup k released ≡ old cutoff (lookup k h.manager.seen)
  pub once : Unique released
  pub answered : n.sent ≡ h.sent ++ map (released_frame code) released
  pub kept : (k : ℕ) → lookup k n.manager.seen ≡ young cutoff (lookup k h.manager.seen)
  pub unique : Unique n.manager.seen

first_old :
    (cutoff seq k : ℕ) (s : InflightSlot) (seen rest : Map ℕ InflightSlot)
    → lookup seq seen ≡ some s
    → ltb s.added_at cutoff ≡ true
    → lookup k rest ≡ old cutoff (if eqb seq k then none else lookup k seen)
    → lookup k ((seq, s) ∷ rest) ≡ old cutoff (lookup k seen)
unfolding lookup
first_old cutoff seq k s seen rest found aged h = ground (arith, eqb_iff seq k)

still_young :
    (cutoff seq k : ℕ) (s : InflightSlot) (seen : Map ℕ InflightSlot) {o : Option InflightSlot}
    → lookup seq seen ≡ some s
    → ltb s.added_at cutoff ≡ true
    → o ≡ young cutoff (if eqb seq k then none else lookup k seen)
    → o ≡ young cutoff (lookup k seen)
still_young cutoff seq k s seen found aged h = ground (arith, eqb_iff seq k)

itself : (n : ℕ) (o : Option InflightSlot) → (if eqb n n then none else o) ≡ none
itself n o = ground arith

still_none : (cutoff : ℕ) (o : Option InflightSlot) → o ≡ young cutoff o → none ≡ old cutoff o
still_none cutoff none h = refl
still_none cutoff (some s) h = ground arith

append_nil : {A : Type 0} (xs : List A) → xs ≡ xs ++ []
append_nil [] = refl
append_nil (x ∷ xs) = ap (λ l. x ∷ l) (append_nil xs)

module _ {S : Type 0} where
  release_one-sent :
      (h : Handler S) (code seq : ℕ) (s : InflightSlot)
      → lookup seq h.manager.seen ≡ some s
      → ((release_one code seq s h).manager.seen ≡ delete seq h.manager.seen)
        × ((release_one code seq s h).sent ≡ h.sent ++ (released_frame code (seq, s) ∷ []))
  unfolding release_one send_results
  release_one-sent h code seq s found =
      let (gone, one) = force_settle_seen h.manager seq code s.bytes s found in
      (gone, ap (λ fs. h.sent ++ fs) one)

  release_one-IsReleased :
      (h n : Handler S) (cutoff code seq : ℕ) (s : InflightSlot)
      → Unique h.manager.seen
      → lookup seq h.manager.seen ≡ some s
      → ltb s.added_at cutoff ≡ true
      → IsReleased cutoff code (release_one code seq s h) n
      → IsReleased cutoff code h n
  release_one-IsReleased h n cutoff code seq s u found is_aged r =
      let (gone, sent) = release_one-sent h code seq s found in
      let left : (k : ℕ)
          → lookup k (release_one code seq s h).manager.seen
            ≡ (if eqb seq k then none else lookup k h.manager.seen) =
        λ k. ap (lookup k) gone ∙ lookup-delete seq k h.manager.seen in
      record {
        released = (seq, s) ∷ r.released;
        complete = λ k.
            first_old cutoff seq k s h.manager.seen r.released found is_aged
              (r.complete k ∙ ap (old cutoff) (left k));
        once = (
          r.complete seq ∙ ap (old cutoff) (left seq ∙ itself seq (lookup seq h.manager.seen)),
          r.once,
        );
        answered =
            r.answered
            ∙ (ap (λ l. l ++ map (released_frame code) r.released) sent
                ∙ append_assoc h.sent (released_frame code (seq, s) ∷ [])
                    (map (released_frame code) r.released));
        kept = λ k.
            still_young cutoff seq k s h.manager.seen found is_aged
              (r.kept k ∙ ap (young cutoff) (left k));
        unique = r.unique;
      }

  release_one-Unique :
      (h : Handler S) (code seq : ℕ) (s : InflightSlot)
      → Unique h.manager.seen
      → lookup seq h.manager.seen ≡ some s
      → (Unique (release_one code seq s h).manager.seen)
        × (length (release_one code seq s h).manager.seen + 1 ≡ length h.manager.seen)
  release_one-Unique h code seq s u found =
      let (gone, sent) = release_one-sent h code seq s found in
      rw gone (delete-Unique seq h.manager.seen u, length-delete_exact seq s h.manager.seen u found)

  nothing-IsReleased :
      (cutoff code : ℕ) (h : Handler S)
      → Unique h.manager.seen
      → oldest_from cutoff none h.manager.seen ≡ none
      → IsReleased cutoff code h h
  unfolding lookup
  nothing-IsReleased cutoff code h u q = record {
    released = [];
    complete = λ k.
        still_none cutoff (lookup k h.manager.seen) (oldest_from-none cutoff h.manager.seen k q);
    once = tt;
    answered = append_nil h.sent;
    kept = λ k. oldest_from-none cutoff h.manager.seen k q;
    unique = u;
  }

  release_loop-IsReleased :
      (fuel cutoff code : ℕ) (h : Handler S)
      → Unique h.manager.seen
      → length h.manager.seen ≤ fuel
      → IsReleased cutoff code h (release_loop fuel cutoff code h)
  unfolding release_loop oldest_before oldest_from
  release_loop-IsReleased zero cutoff code h u e =
      nothing-IsReleased cutoff code h u (empty h.manager.seen e)
    where
      empty : (m : Map ℕ InflightSlot) → length m ≤ 0 → oldest_from cutoff none m ≡ none
      empty [] l = refl
      empty (x ∷ m) l = absurd (omega arith)
  release_loop-IsReleased (suc fuel) cutoff code h u e =
      elim (Option-cases (oldest_from cutoff none h.manager.seen)) [
        | inl q ↦ rw (q, release_loop) (nothing-IsReleased cutoff code h u q)
        | inr ((seq, s), q) ↦
            let (aged, place) = oldest_from_found cutoff none h.manager.seen seq s u refl q in
            let found : lookup seq h.manager.seen ≡ some s = elim place [
              | inl x ↦ absurd (cc)
              | inr y ↦ y
            ] in
            let (u', l) = release_one-Unique h code seq s u found in
            rw (q, release_loop)
              (release_one-IsReleased h _ cutoff code seq s u found aged (
                release_loop-IsReleased fuel cutoff code (release_one code seq s h) u'
                  (omega (arith, l, e))))
      ]

young_none :
    (cutoff : ℕ) (m : Map ℕ InflightSlot)
    → Unique m
    → ((k : ℕ) (s : InflightSlot) → lookup k m ≡ some s → ltb s.added_at cutoff ≡ false)
    → oldest_from cutoff none m ≡ none
young_none cutoff m u h = elim (Option-cases (oldest_from cutoff none m)) [
  | inl q ↦ q
  | inr ((seq, s), q) ↦
      let (aged, place) = oldest_from_found cutoff none m seq s u refl q in
      elim place [ inl x ↦ absurd cc | inr y ↦ absurd (ground (arith, aged, h seq s y)) ]
]

young_only :
    (cutoff : ℕ) (o : Option InflightSlot) (s : InflightSlot)
    → young cutoff o ≡ some s
    → ltb s.added_at cutoff ≡ false
young_only cutoff none s h = cc
young_only cutoff (some t) s h = ground arith

-- The reaper's loop ends: after at most as many rounds as there are batches in flight none is left that
-- is older than the cutoff, every younger one is as it was, and what was sent is one RESULT for each of
-- the older ones, of level released, with its seq and its correlation, and nothing else; if no seq stands
-- twice in the map.
pub release_stuck_exact :
    {S : Type 0} (cutoff code : ℕ) (h : Handler S)
    → Unique h.manager.seen
    → IsReleased cutoff code h (release_stuck cutoff code h)
      × (oldest_before (release_stuck cutoff code h).manager cutoff ≡ none)
unfolding release_stuck maybe_schedule_flush pending oldest_before
release_stuck_exact cutoff code h u =
    let r = release_loop-IsReleased (length h.manager.seen) cutoff code h u (omega arith) in
    (
      record {
        released = r.released;
        complete = r.complete;
        once = r.once;
        answered = r.answered;
        kept = r.kept;
        unique = r.unique;
      },
      young_none cutoff _ r.unique
          (λ k s e. young_only cutoff (lookup k h.manager.seen) s (sym (r.kept k) ∙ e)),
    )
