-- ===== src/Dispatcher.antt =====
-- UniEvent/SimpleDispatcherImp.cxx and UniEvent/pubinclude/UniEvent/SimpleDispatcher.h: a queue of
-- events, with events for an idle moment, for an empty queue and for an interrupt.
pub mod State
mod Loop
mod Safe
mod Fuel
mod Order
mod Busy
mod Tests
