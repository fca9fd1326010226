-- ===== src/Events.antt =====
-- Event handling that the services share: libs/common/events.py and libs/common/redis_client.py.
pub mod Once
pub mod Lock
mod Tests
