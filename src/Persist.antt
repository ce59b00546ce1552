-- ===== src/Persist.antt =====
-- src/taskweave/persist: the circuit breaker (Breaker), the file backend with its consumer thread
-- (Runner) and the caller's side (Producer), and the retries (Retry).
pub mod Breaker
pub mod Runner
pub mod Retry
pub mod Producer
