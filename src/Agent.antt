-- ===== src/Agent.antt =====
-- The agent's front door (agent/src): who may call, and what each caller may see and do.
pub mod Security
pub mod Origin
pub mod Token
pub mod Sessions
pub mod Task
pub mod Wire
pub mod Service
pub mod Prints
pub mod Hello
pub mod Connection
