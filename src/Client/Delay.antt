-- ===== src/Client/Delay.antt =====
-- captureRelativeDelay of chain.go: the seconds that it gives back.
use chronos_go.Common.{ℕ, ◌+◌, ◌*◌, ◌≤◌, ◌≡◌, pos, arith}
use chronos_go.Rdb.Enqueue.{second}
use chronos_go.Client.Options.{EnqueueOptions, apply, with_process_in, capture_relative_delay}

-- A delay of n whole seconds that WithProcessIn stores as a time comes back as n from
-- captureRelativeDelay, if it is captured within half a second of the option's application.
pub capture-with_process_in :
    (now drift n : ℕ) (o : EnqueueOptions)
    → drift * 2 ≤ second
    → capture_relative_delay (now + drift) (apply now (with_process_in (pos (n * second))) o) ≡ n
unfolding capture_relative_delay apply
capture-with_process_in now drift n o close = ground arith
