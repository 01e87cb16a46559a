-- ===== src/Timer.antt =====
-- UniEvent/pubinclude/UniEvent/Timer.h, UniEvent/Timer.cxx and UniEvent/TimerEventTracker.cxx:
-- intervals and times of nanosecond precision, and the events that wait for a time.
pub mod Interval
mod Arith
pub mod Absolute
mod Instants
pub mod Tracker
mod Heap
mod Conserve
mod Overdue
mod Tests
