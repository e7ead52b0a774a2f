-- ===== src/Aguiadk.antt =====
-- Package aguiadk: the bridge between ADK agents and AG-UI clients.
pub mod RunStore
pub mod Translator
pub mod Inbound
pub mod Bridge
