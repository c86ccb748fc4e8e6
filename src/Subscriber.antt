-- ===== src/Subscriber.antt =====
-- internal/subscriber/subscriber.go: the signals that wake the loops, and the pauses between two
-- subscriptions. A channel of one place is whether it is full.
pub mod Wakes
pub mod Pauses
use agents_orchestrator.Prelude.{
  ℕ, String, Bool, true, false, ◌||◌, Option, none, some, List, [], ◌∷◌, ◌*◌, nat_eq, ltb, second,
  if◌then◌else◌, ◌==◌,
}
use agents_orchestrator.Errors.{Result, Error, ok, err}

pub record Subscriber : Type 0 where
  pub wake : Bool
  pub sandbox_wake : Bool

unfoldable pub new : Subscriber
new = record { wake = false; sandbox_wake = false }

-- What Recv gives: a response with the event of its envelope, if it has one, or an error other
-- than io.EOF. The end of a list of these is io.EOF.
pub data Received : Type 0 where
  response : Option String → Received
  broken : Error → Received

-- The switch on an envelope's event
unfoldable pub signal : String → Subscriber → Subscriber
signal event s =
    if event == "message.created" || event == "instance.updated"
    then record s { wake = true }
    else if event == "sandbox.updated"
    then record s { sandbox_wake = true }
    else if event == "workload.status_changed"
    then record s { wake = true; sandbox_wake = true }
    else s

unfoldable pub receive : Option String → Subscriber → Subscriber
unfolding signal
receive none s = s
receive (some event) s = signal event s

unfoldable pub receive_all : List Received → Subscriber → Option Error × Subscriber
unfolding receive
receive_all [] s = (none, s)
receive_all (Received.response envelope ∷ rs) s = receive_all rs (receive envelope s)
receive_all (Received.broken e ∷ rs) s = (some e, s)

-- runSubscription, of what Subscribe gives: an error, or what the stream gives.
unfoldable pub run_subscription : Result (List Received) → Subscriber → Option Error × Subscriber
unfolding receive_all
run_subscription (err e) s = (some e, s)
run_subscription (ok stream) s = receive_all stream s

unfoldable pub next_backoff : ℕ → ℕ
next_backoff current =
    if nat_eq current 0
    then second
    else if ltb (30 * second) (current * 2)
    then 30 * second
    else current * 2

-- The pause after the next subscription
unfoldable pub next_pause : Option Error → ℕ → ℕ
unfolding next_backoff
next_pause none backoff = second
next_pause (some e) backoff = next_backoff backoff

-- Run, over the subscriptions that are made until the context ends: the pauses, of which each
-- follows its subscription, and the signals. Run starts with a backoff of a second.
unfoldable pub run : List (Result (List Received)) → ℕ → Subscriber → List ℕ × Subscriber
unfolding run_subscription next_pause
run [] backoff s = ([], s)
run (r ∷ rs) backoff s =
    let ended = run_subscription r s in
    let later = run rs (next_pause ended.0 backoff) ended.1 in (backoff ∷ later.0, later.1)
