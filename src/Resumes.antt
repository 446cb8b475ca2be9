-- ===== src/Resumes.antt =====
-- The life of a résumé: core/src/services/resume_service.py, core/src/worker/resume_tasks.py,
-- core/src/worker/reconcile.py, core/src/worker/graph_tasks.py.
pub mod Model
pub mod Status
pub mod Withdrawal
pub mod Parse
pub mod Drain
pub mod Mime
pub mod Upload
pub mod Reconcile
pub mod Life
pub mod Races
pub mod Tests
