-- ===== src/Crm.antt =====
-- The CRM of src/api/services: leads, calendar events, conversations and agents.
pub mod State
pub mod Leads
pub mod Calendar
pub mod Conversations
pub mod Consistent
pub mod Tasks
pub mod Events
pub mod LeadFlags
pub mod Deletion
pub mod Gone
pub mod Calls
pub mod Numbers
pub mod Tests
