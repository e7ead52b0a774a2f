-- ===== src/Agui.antt =====
-- Package agui: the AG-UI side of the bridge.
pub mod TokenUsage
pub mod ToolNames
