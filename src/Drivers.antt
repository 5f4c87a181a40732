-- ===== src/Drivers.antt =====
-- drivers/: the event drivers.
pub mod Poll
pub mod Select
pub mod Epoll
pub mod Kqueue
pub mod Choice
