-- ===== src/Subscriber/Pauses.antt =====
-- The pauses between two subscriptions of internal/subscriber/subscriber.go.
use agents_orchestrator.Prelude.{
  ℕ, ◌≤◌, ◌*◌, Option, none, some, List, [], ◌∷◌, ◌≡◌, refl, arith, second, All, length,
}
use agents_orchestrator.Errors.{Result, Error}
use agents_orchestrator.Subscriber.{
  Subscriber, Received, run_subscription, next_backoff, next_pause, run,
}

abbrev pub Paced : ℕ → Type 0
Paced d = (second ≤ d) × (d ≤ 30 * second)

next_backoff-Paced : (d : ℕ) → Paced d → Paced (next_backoff d)
unfolding next_backoff
next_backoff-Paced d h = ground arith

next_pause-Paced : (o : Option Error) (d : ℕ) → Paced d → Paced (next_pause o d)
unfolding next_pause
next_pause-Paced none d h = ground arith
next_pause-Paced (some e) d h = next_backoff-Paced d h

-- If the first pause is of one second to thirty, then each subscription is followed by one pause,
-- of one second to thirty, however the subscriptions end.
pub reconnects_keep_pace :
    (rs : List (Result (List Received))) (d : ℕ) (s : Subscriber)
    → (second ≤ d) × (d ≤ 30 * second)
    → All Paced (run rs d s).0 × (length (run rs d s).0 ≡ length rs)
unfolding run
reconnects_keep_pace [] d s h = (tt, refl)
reconnects_keep_pace (r ∷ rs) d s h =
    let ended = run_subscription r s in
    let later =
      reconnects_keep_pace rs (next_pause ended.0 d) ended.1 (next_pause-Paced ended.0 d h) in
    ((h, later.0), ground (arith, later.1))
