-- ===== src/Msg.antt =====
-- src/msg.h: messages as chains of pages out of a static pool.
-- `Msg.Pool` holds the pages and their allocation, `Msg.Ops` the operations of class `msg`,
-- `Msg.Iterator` the class `msg_iterator` and the operations that walk by it.
pub mod Pages
pub mod Pool
pub mod Ops
pub mod Bulk
pub mod Iterator
pub mod Chain
pub mod Alloc
pub mod Read
pub mod Last
pub mod PushBack
pub mod Front
pub mod PopFront
pub mod Walk
pub mod Page
pub mod Steps
pub mod Erase
pub mod Insert
pub mod Crossing
mod Tests
