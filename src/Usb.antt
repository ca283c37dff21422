-- ===== src/Usb.antt =====
-- What the USB driver stands on, kernel/usb: its memory pool, its transfer rings and its small maps.
pub mod Pool
pub mod Ring
pub mod EventRing
pub mod ArrayMap
mod Tests
