-- ===== src/Lib.antt =====
-- Models and theorems of the core of this repository, a WhatsApp server with a CRM and bots.
--
-- Parts, and the files that model them:
--
-- BotFlow: the bot of a conversation. BotFlow/Graph, Nodes, Edges, Cycle and Validate translate
--   `validateBotGraph` (src/api/services/bot-flow.validation.ts), loop by loop, on JSON values (Json): each
--   loop is a recursion on the list it reads, with the errors, maps and sets it fills as its state. Cycle
--   is the depth-first search, WellFormed says what a valid graph is, and Sound and the modules below
--   Cycle are the proofs. BotFlow/Engine is `run` and BotFlow/Inbound `startFlow` and `handleInbound`
--   of src/api/services/bot.service.ts, on a record of the tables that they read and write and of the
--   messages sent. BotFlow/Flows is its `getFlow` and `saveFlow`, with BotFlow/Encode for the JSON value of
--   a graph, and BotFlow/Welcomes is src/api/services/welcome-message.service.ts. Reread proves what a
--   stored graph is read as, Saved and LongWelcome what the two calls do.
-- Crm: the CRM's services, on a record of its tables (Crm/State, after prisma/postgresql-schema.prisma).
--   Crm/Leads is src/api/services/leads.service.ts, Crm/Calendar calendar-events.service.ts and
--   Crm/Conversations the calls of crm.service.ts that write. The services meet in the tables: the
--   calendar keeps `hasPendingTasks` of the leads, and a conversation is deleted with its lead. A call
--   gives a result or an exception and the tables that it leaves. Crm/Consistent is the invariant of
--   the tables, Tasks, Events, LeadFlags and Deletion prove it of each call, Calls of any sequence.
-- Chatbot: the dispatch of a message to a bot of an integration. Chatbot/Triggers is
--   src/utils/findBotByTrigger.ts and src/utils/advancedOperatorsSearch.ts; Chatbot/Emit is `emit` of
--   src/api/integrations/chatbot/base-chatbot.controller.ts with `checkIgnoreJids`, `getSession` and
--   `findBotTrigger` of chatbot.controller.ts; the content of a message may be missing. Chatbot/Registry and Chatbot/Bots are the calls that
--   change the bots, settings and sessions: `ignoreJid`, `changeStatus`, `deleteBot`, `createBot`,
--   `updateBot` and `settings`. Sound, Replies and Changes are proofs about them, and Slots, Exclusive
--   and Histories those about the triggers of an instance's bots. Chatbot/Debounce is
--   `processDebounce` of chatbot.controller.ts as a machine of arrivals and timers, with its proofs
--   below it. Of src/api/integrations/chatbot/base-chatbot.service.ts, Chatbot/Process is `process` with
--   its sessions (proofs: Sessions), Chatbot/Links the regular expression for links (proofs:
--   Links/Reading), and
--   Chatbot/Outgoing what `sendMessageWhatsApp` does to an answer (proofs: Actions).
-- Event: the events that the webhook of an instance reports. Event/Settings is `set` of
--   src/api/integrations/event/webhook/webhook.controller.ts and `get` of event/event.controller.ts;
--   a field that a request leaves out keeps its column. Event/Retry and Event/Webhook are
--   `retryWebhookRequest` and `emit` of webhook.controller.ts, which give the requests and pauses in
--   their order. Stored, Attempts and Sent are the proofs.
-- Cache: Cache/Local is `LocalCache` of src/cache/localcache.ts, but for its hashes, and Cache/Separate proves
--   that the modules that share its store do not meet.
-- Table: the rows of a database table by their key. Prelude: JavaScript strings as lists of UTF-16
--   units, list operations under JavaScript's names, exceptions.
--
-- Parameters, for code outside the repository: `toLowerCase` and Unicode normalisation, regular
-- expressions, `new Date` of a text, whether the channel delivers a message, whether the API of a
-- provider answers, what a webhook answers to each attempt, the jitter of a delay and the signing of
-- a token. The package node-cache is a record of the calls used and of what it documents of them, at
-- instants between which no entry expires.
--
-- Fuel: the depth-first search has one unit more than there are nodes, and a run of the bot has the
-- steps that the code allows (MAX_STEPS); both are shown to be enough. The worklist of reachable
-- nodes has one unit for the start and one for each edge; it only makes warnings. The search for links
-- has the length of its text, which is shown to be enough. A delivery to a webhook has the attempts
-- that the configuration allows.
--
-- Not modelled: the channels, the providers of the chatbots, message brokers and storage, whose code
-- calls libraries; routes, schemas and configuration; the lists and searches of the CRM, which are
-- queries; the widths of columns other than those of a conversation's overrides, and time stamps
-- other than those of leads and events. Calls of the services run one after the other. In BotFlow/Inbound the claim of a session is the atomic step.
pub mod BotFlow
pub mod Cache
pub mod Chatbot
pub mod Crm
pub mod Event
pub mod Json
pub mod Prelude
pub mod Table
