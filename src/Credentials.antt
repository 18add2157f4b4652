-- ===== src/Credentials.antt =====
-- credentials_getter.go: the name of a role session, the ARN of a role, and the getter that asks
-- STS for credentials.
pub mod SessionName
pub mod Types
pub mod Getter
pub mod BaseArn
