-- ===== src/Edit.antt =====
-- ed.chared.c: the line that is being edited, and the commands that keys are bound to.
pub mod Buffer
pub mod State
pub mod Change
pub mod Word
pub mod Kill
pub mod Typing
pub mod Delete
pub mod Move
pub mod Cells
pub mod Vi
pub mod Session
pub mod Text
pub mod Deleted
pub mod Ring
pub mod RoundTrip
pub mod Undo
pub mod Resize
pub mod Bounds
