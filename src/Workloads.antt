-- ===== src/Workloads.antt =====
-- The handlers of tasks that fill idle time (hadcd_workloads).
pub mod Mining
pub mod Registry
