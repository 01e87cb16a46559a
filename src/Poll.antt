-- ===== src/Poll.antt =====
-- UniEvent/UnixEventPoll.cxx: events for file descriptors, signals and times, posted to a
-- dispatcher. `Conditions` has the sets of conditions, `Signals` and `Descriptors` the two
-- registries, and `Loop` has `doPoll`. What the system answers is a parameter.
pub mod Answered
pub mod Conditions
pub mod Signals
pub mod Descriptors
pub mod Loop
pub mod Foreign
pub mod Handled
pub mod Owned
pub mod Registered
pub mod Pairs
pub mod Polled
pub mod Ready
pub mod Sorted
mod Tests
