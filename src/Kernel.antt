-- ===== src/Kernel.antt =====
-- kernel/: the scheduler, the timers, the wait queues, the processes with their ids, signals and
-- ends, time conversion and the printing of numbers.
pub mod Mktime
pub mod Sched
pub mod Timer
pub mod Print
pub mod Process
pub mod Users
pub mod Signals
pub mod Exit
pub mod Wait
