-- ===== src/Batches/Answers.antt =====
-- The answers to BATCH frames of internal/protocol/handler_batch.go.
use mbta_go.Base.{ℕ, ◌++◌, ◌≡◌, refl, ap, ◌∙◌, List, [], ◌∷◌, map, Bool, true, false, ◌⊎◌, inl, inr}
use mbta_go.Base.{◌||◌, eqb, lookup, nat_eq, arith, some, any, any-append, append_assoc}
use mbta_go.Credit.Manager.{CreditManager, SettleGrant, InflightSlot, settle, accept_grant}
use mbta_go.Credit.Dedup.{settle_live}
use mbta_go.Batches.{
  Handler, Control, result_frame, credit_frame, abort_frame, SinkCall, BatchEvent,
}
use mbta_go.Batches.Callbacks.{call_handler_keeps}
use mbta_go.Batches.Sink.{
  send_results, settle_lease, call_handler, maybe_schedule_flush, mark_fired, store_grant,
}
use mbta_go.Batches.Handling.{accept_lease}

-- A RESULT for the seq, or the ABORT that closes the connection.
abbrev pub is_answer : ℕ → Control → Bool
is_answer seq (result_frame r) = eqb r.ref_seq seq
is_answer seq (credit_frame b y) = false
is_answer seq (abort_frame c) = true

-- What was sent after `before` has an answer.
pub record IsAnswered (seq : ℕ) (before after : List Control) : Type 0 where
  pub new : List Control
  pub appended : after ≡ before ++ new
  pub answered : any (is_answer seq) new ≡ true

pub answer_now :
    (seq : ℕ) (before new : List Control)
    → any (is_answer seq) new ≡ true
    → IsAnswered seq before (before ++ new)
answer_now seq before new h = record { new = new; appended = refl; answered = h }

pub answer_more :
    (seq : ℕ) (before after new : List Control)
    → IsAnswered seq before after
    → IsAnswered seq before (after ++ new)
answer_more seq before after new a = record {
  new = a.new ++ new;
  appended = ap (λ l. l ++ new) a.appended ∙ append_assoc before a.new new;
  answered = any-append (is_answer seq) a.new new a.answered;
}

-- A seq in flight, and a live grant of it.
pub record IsLive (seq : ℕ) (m : CreditManager) (g : SettleGrant) : Type 0 where
  pub slot : InflightSlot
  pub found : lookup seq m.seen ≡ some slot
  pub own : g.seq ≡ seq
  pub undone : g.done ≡ false
  pub silent : g.accepted ≡ false

pub same_seq : (a b : ℕ) → a ≡ b → (eqb a b || false) ≡ true
same_seq a b e = ground arith

pub settle_answers :
    (seq : ℕ) (m : CreditManager) (g : SettleGrant) (level code retry_ms frame_bytes : ℕ)
    → IsLive seq m g
    → any (is_answer seq) (map result_frame (settle m g level code retry_ms frame_bytes).2) ≡ true
settle_answers seq m g level code retry_ms frame_bytes l =
    rw (settle_live m g level code retry_ms frame_bytes l.slot l.undone (rw l.own l.found))
      (same_seq g.seq seq l.own)

accept_answers :
    (seq : ℕ) (m : CreditManager) (g : SettleGrant)
    → IsLive seq m g
    → any (is_answer seq) (map result_frame (accept_grant m g true).1) ≡ true
unfolding accept_grant
accept_answers seq m g l = rw (l.undone, l.silent) (same_seq g.seq seq l.own)

module _ {S : Type 0} (seq : ℕ) (before : List Control) (place : ℕ) where
  -- Answered, or still to be answered by the grant at the place.
  pub record IsOpen (h : Handler S) : Type 0 where
    pub live : IsLive seq h.manager (h.leases place).grant
    pub grown : (new : List Control) × (h.sent ≡ before ++ new)

  abbrev pub IsCovered : Handler S → Type 0
  IsCovered h = IsAnswered seq before h.sent ⊎ IsOpen h

  pub answer_open :
      (h : Handler S) (new : List Control)
      → ((new' : List Control) × (h.sent ≡ before ++ new'))
      → any (is_answer seq) new ≡ true
      → IsAnswered seq before (h.sent ++ new)
  answer_open h new (old, e) a = record {
    new = old ++ new;
    appended = ap (λ l. l ++ new) e ∙ append_assoc before old new;
    answered = any_after old a;
  }
    where
      any_after :
          (xs : List Control)
          → any (is_answer seq) new ≡ true
          → any (is_answer seq) (xs ++ new) ≡ true
      any_after [] p = p
      any_after (x ∷ xs) p = ground (arith, any_after xs p)

  pub settle_lease-IsAnswered :
      (level code retry_ms frame_bytes : ℕ) (h : Handler S)
      → IsCovered h
      → IsAnswered seq before (settle_lease place level code retry_ms frame_bytes h).sent
  unfolding settle_lease send_results store_grant
  settle_lease-IsAnswered level code retry_ms frame_bytes h (inl a) =
      answer_more seq before h.sent _ a
  settle_lease-IsAnswered level code retry_ms frame_bytes h (inr o) =
      answer_open h _ o.grown
        (settle_answers seq h.manager (h.leases place).grant level code retry_ms frame_bytes o.live)

  pub accept_lease-IsAnswered :
      (h : Handler S) → IsCovered h → IsAnswered seq before (accept_lease place h).sent
  unfolding accept_lease send_results store_grant
  accept_lease-IsAnswered h (inl a) = answer_more seq before h.sent _ a
  accept_lease-IsAnswered h (inr o) =
      answer_open h _ o.grown (accept_answers seq h.manager (h.leases place).grant o.live)

  mark_fired-IsCovered : (h : Handler S) → IsCovered h → IsCovered (mark_fired place h)
  unfolding mark_fired
  mark_fired-IsCovered h (inl a) = inl a
  mark_fired-IsCovered h (inr o) = inr (record { live = rw kept o.live; grown = o.grown })
    where
      kept : ((mark_fired place h).leases place).grant ≡ (h.leases place).grant
      kept = ground arith

  armed-IsCovered : (h : Handler S) → IsCovered h → IsCovered (maybe_schedule_flush h)
  unfolding maybe_schedule_flush
  armed-IsCovered h (inl a) = inl a
  armed-IsCovered h (inr o) = inr (record { live = o.live; grown = o.grown })

  pub call_handler-IsCovered :
      (f : BatchEvent S → SinkCall) (durable : Bool) (ev : BatchEvent S) (h : Handler S)
      → IsCovered h
      → IsCovered (call_handler f place durable ev h)
  call_handler-IsCovered f durable ev h c =
      call_handler_keeps IsCovered place (λ l r t n p. inl (settle_lease-IsAnswered l r t 0 n p))
        mark_fired-IsCovered armed-IsCovered f durable ev h (logged c)
    where
      logged : IsCovered h → IsCovered (record h { handed = h.handed ++ (ev ∷ []) })
      logged (inl a) = inl a
      logged (inr o) = inr (record { live = o.live; grown = o.grown })
