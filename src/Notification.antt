-- ===== src/Notification.antt =====
-- internal/notification: alerts about failed Jobs. Event makes an event of a Job, Queue keeps the
-- events that wait and the ids that were handled, Workers lets two workers take them, Delivery
-- sends one, Transport says what an answer of the receiver means.
pub mod Event
pub mod Queue
pub mod Workers
pub mod Transport
pub mod Delivery
