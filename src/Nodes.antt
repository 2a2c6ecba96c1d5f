-- ===== src/Nodes.antt =====
-- `NodeService` of internal/service/node.go: the nodes, their virtual children and their Reality short
-- ids.
pub mod Rules
pub mod Sids
pub mod Changes
pub mod Forest
pub mod Steps
