-- ===== src/Services.antt =====
-- api/services/: the control loops over the model services.
pub mod Autoscaler
pub mod Gateway
