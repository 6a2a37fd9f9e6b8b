-- ===== src/Controller.antt =====
-- pkg/controller/controller.go
pub mod Effects
pub mod Resolve
pub mod Bindings
pub mod Cleanup
pub mod Objects
pub mod Queue
pub mod Events
pub mod System
pub mod Run
pub mod Util
use rbacsync.Prelude.{String}
