-- ===== src/Mailbox.antt =====
-- The generic software mailbox, libs/gen_sw_mbox/gen_sw_mbox.c.
pub mod State
pub mod Handler
pub mod Api
pub mod Protocol
mod Tests
