-- ===== src/BotFlow.antt =====
-- The bot of src/api/services: its graph (bot-flow.validation.ts) and its engine (bot.service.ts).
pub mod Graph
pub mod Cycle
pub mod Nodes
pub mod Edges
pub mod WellFormed
pub mod Inbound
mod Tests
mod FlowTests
pub mod Encode
pub mod Reread
pub mod Flows
pub mod Welcomes
pub mod Saved
pub mod LongWelcome
pub mod Engine
pub mod Sound
pub mod Validate
