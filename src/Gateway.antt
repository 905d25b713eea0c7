-- ===== src/Gateway.antt =====
-- core/gateway: the prompts' names, the replies of the AI services, and the decisions read from them.
pub mod Texts
pub mod Json
pub mod Parse
pub mod Accepted
pub mod Found
pub mod Services
