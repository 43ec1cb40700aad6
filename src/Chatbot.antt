-- ===== src/Chatbot.antt =====
-- The chatbot integrations of src/api/integrations/chatbot, as far as their base classes go.
pub mod State
pub mod Triggers
pub mod Emit
pub mod Sound
pub mod Replies
pub mod Registry
pub mod Changes
pub mod Bots
pub mod Slots
pub mod Exclusive
pub mod Histories
pub mod Debounce
pub mod Process
pub mod Sessions
pub mod Links
pub mod Outgoing
pub mod Actions
pub mod Tests
pub mod ServiceTests
