-- ===== src/Kube.antt =====
-- The cluster as the controllers see it: its objects, and the calls that they make.
pub mod Types
pub mod Cluster
pub mod Recorded
pub mod Idles
pub mod Server
pub mod RoleServer
