-- ===== src/Agent.antt =====
-- internal/agent: the ssh-agent kept on a fixed socket, and the agents of others around it.
pub mod Proc
pub mod State
pub mod Ports
pub mod Reap
pub mod Ensure
pub mod Service
mod Tests
