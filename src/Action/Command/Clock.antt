-- ===== src/Action/Command/Clock.antt =====
-- How far the milliseconds of CAmActionCommand::_calculateTimeDifference are from the time that passed.
use audio_manager_plugins.Base.{
  ℕ, ◌+◌, ◌-◌, ◌*◌, ◌/◌, ◌^◌, ◌≤◌, ◌<◌, ◌≡◌, arith, leb, if◌then◌else◌,
}
use audio_manager_plugins.Action.Command.{Time, max_ns, time_difference}

-- A reading in nanoseconds.
abbrev pub nanos : Time → ℕ
nanos t = t.tv_sec * 1000000000 + t.tv_nsec

-- For two readings in order, less than 2 ^ 32 - 1 milliseconds apart, the answer is the time that
-- passed in milliseconds, rounded down if the nanoseconds of the start are not above those of the
-- end, and rounded up otherwise.
time_difference_rounds :
    (start end : Time)
    → start.tv_nsec < max_ns
    → end.tv_nsec < max_ns
    → nanos start ≤ nanos end
    → (nanos end - nanos start) / 1000000 + 1 < 2 ^ 32
    → time_difference start end ≡ (
        if leb start.tv_nsec end.tv_nsec
        then (nanos end - nanos start) / 1000000
        else (nanos end - nanos start + 999999) / 1000000)
unfolding time_difference
time_difference_rounds start end hs he order small = ground arith
