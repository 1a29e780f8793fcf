-- ===== src/Common/Int64.antt =====
-- Go's time.Duration, an int64 of nanoseconds, as its 64 bits in two's complement.
use Prim.Native.Nat.{ℕ, ◌-◌, ◌%◌, ◌^◌}
use mathlib.Core.Bool.{Bool, ◌&&◌}
use chronos_go.Common.Tests.{ltb, if◌then◌else◌}

-- The bits that an operation keeps of its result.
abbrev pub int64 : ℕ → ℕ
int64 n = n % 2 ^ 64

-- time.Until: the time from now to t, below zero for one that is past, and at the nearest of the ends
-- of the range where it is outside.
abbrev pub until : ℕ → ℕ → ℕ
until now t =
    if ltb t now
    then (if ltb (2 ^ 63) (now - t) then 2 ^ 63 else 2 ^ 64 - (now - t))
    else if ltb (t - now) (2 ^ 63)
    then t - now
    else 2 ^ 63 - 1

-- d > n, for n in the range
abbrev pub longer : ℕ → ℕ → Bool
longer d n = ltb d (2 ^ 63) && ltb n d

-- A duration that is not below zero, and zero for one that is.
abbrev pub above_zero : ℕ → ℕ
above_zero d = if ltb d (2 ^ 63) then d else 0
