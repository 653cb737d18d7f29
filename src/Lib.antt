-- ===== src/Lib.antt =====
-- A model of UmbraChat, an end-to-end encrypted messenger: of its client, a browser that keeps the keys,
-- the sessions and the histories, and of its server, which holds public keys and forwards ciphertext.
--
-- Parts. Conversation (web/src/chat/conversation.ts) sends an envelope to every device of a contact
-- and polls what has come; Group (chat/group.ts) sends to the members of a stored roster through
-- Conversation and reacts to the group envelopes that a poll hands over; Call (chat/call.ts) is the
-- machine of the one call, which sends its signals through Conversation and reacts to those that a
-- poll hands over. Below them stand Storage (storage/messageStore.ts, groupStore.ts, keyStore.ts),
-- Signal (crypto/session.ts and the class SignalStore of wasm-crypto/src/session.rs), Api (the
-- signed requests of api/*.ts, signedRequest.ts first), Registration (api/register.ts, the JSON of
-- api/codec.ts, `completeLink` of api/devices.ts) and SafetyNumber (crypto/identity.ts). Identity,
-- Message, Envelope and Http hold the types. Above them stands App (web/src/App.tsx): App is its
-- state, App/Pages enters a screen and polls for it, App/Handlers has what the screens call, and
-- App/Events runs one event of the page after another. Screens (web/src/screens) says what is shown,
-- a list of nodes with what acting on each does; Screens/Page puts them together as App.tsx does.
-- Server/Auth is the server's check of a signed request (server/src/auth.rs, over error.rs), which meets
-- `signedFetch` in Server/Accepts. Server/Database has the server's tables (server/migrations) and the SQL
-- statements of its routes, Server/Route how a route runs, and Server/Routes the handlers
-- (server/src/routes): Messages, Prekeys, Register and Devices. Server/Calls makes one service of them, as
-- routes/mod.rs does, and Server/Mailbox is what the service is for a device: a box of messages.
-- Functions keep their names, in snake_case: `sendToContact` is `send_to_contact`.
--
-- State. World is what the functions share: the object stores of IndexedDB and the timers of
-- localStorage as dictionaries by their text key, the loaded sessions, the variables of
-- chat/call.ts, the requests that were made so far, and the state of everything outside, `Env`. An
-- async function that may throw is an action of Exec: from a world it gives a value or an error, and
-- the world after it; what was written before a throw stays written. A `void`ed promise is an
-- action whose error is dropped. Loops over arrays are structural, so there is no fuel but the
-- number of digits of a printed number, which is bounded by the number.
--
-- The page's state, AppState, has React's variables and refs with the browser's intervals (Ui), the
-- `SignalStore` objects by number (each screen opens one, and its closures keep the number), and the
-- World. A handler is split at its early return: `handle_send` reads the status, `send_from` goes on
-- from it. `guarded` is `try … catch … finally` around what a busy flag shows. A screen's function gives
-- nodes; the local variables of all screens are one record, Forms, and are not reset when a screen is
-- left.
--
-- The server's state, Site, has the tables as lists of rows and the rest of the world. A route is an action
-- of Exec that throws the answer which refuses the request. A statement may fail, and then changes
-- nothing; an insertion that breaks a key fails; a transaction that fails, or whose commit fails, is
-- rolled back. A call is a request past its extractors, so that it has the device that signed it.
--
-- Parameters. Platform holds what the client stands on: the clock, random ids, the failure of a
-- database request, `fetch`, WebRTC, digests, base64, JSON, and libsignal's functions on a session.
-- Nothing is assumed of them, but where a theorem says so: that the clock does not show less than a
-- given time, that libsignal reads back the sessions that it has serialized, that the empty text has no bytes.
-- Host holds what the server's check stands on: its clock, its table of keys, libsignal and the codecs;
-- where a theorem is about both sides, it says how the two agree. A path reaches the server as it was
-- signed. Backend holds what the routes stand on: whether a statement succeeds, the clocks, random ids and
-- bytes, the order in which the rows of a statement come back, base64 and the checks of libsignal on keys.
-- Theorems assume of it that this order is one of the same rows, and that base64 reads back as it was
-- written. Tests fills the three with small concrete ones and runs the model on them.
--
-- Choices. A time is its number of milliseconds, where the client keeps ISO text, and of microseconds where
-- the database keeps a timestamp; numbers are
-- naturals; an envelope has one of the declared shapes, and what parses to none of them is an
-- error; a response is read by the shape that the call site casts it to. A media stream and a peer
-- connection are numbers, given out in order; a timer is the call that it will make. Each function
-- runs to its end before the next starts: what happens between two awaits of one is not interleaved
-- with another. Reading the bytes of a picked file does not fail. How long a timer takes is left open.
--
-- `sendFile` runs its callback in the caller's state: `send_file_in` is given how the client's functions run
-- there. A contact's id is not the empty text, which `poll` of the source takes for no contact.
--
-- A text is taken for ASCII where it is sliced; `Number` of a timer's option is that of decimal
-- digits. The race of two screens is the one exception to running to the end: there, entering a screen
-- is taken apart before its first poll, which has done nothing yet when it first waits, in `signedFetch`.
--
-- Not modelled: two routes of the server that run at the same time (each statement of the source is
-- atomic, and the rows that one locks another skips); an answer that is lost after its statement was
-- executed; its start, its web framework and CORS, and the migration of old rows. In the client's model the
-- answers of the server are those of `fetch`, except where a theorem is about both.
--
-- Nor are these: key generation in wasm-crypto/src/lib.rs, which is libsignal's; how markup nests, object
-- URLs, and the interval at which the linked devices are refreshed; web/src/main.tsx, which mounts the
-- page, and the end-to-end scripts.
--
-- Prelude holds the shared names, tests on numbers, list lemmas, the dictionary and decimal
-- notation, and texts. Exec has the rules for composed actions: Bind takes a block that returned apart,
-- Keeps carries an invariant through a block, Establishes says what holds once a block has returned,
-- Returns that it throws nothing, and Atomic that a block that throws has changed nothing.
-- World/Frame, Storage/Frame, Signal/Frame, Api/Frame, Conversation/Frame and App/Frame say what the parts
-- leave alone, once for every invariant that does not mention it; Server/Frame,
-- Server/Writes and Server/Tables do so for the routes. Server/Errors, Delivery, Once, Given, Links, Unlinked and
-- Served, with the modules below them, are the proofs about the routes, over lemmas on one table each:
-- Waiting and Sorted (messages), Spent (prekeys) and Codes (codes). Group/Roster, Removal and Lasting are about
-- who is let through to a group, Group/Grown and App/Lost about what is stored when a poll throws.
pub mod Prelude
pub mod Exec
pub mod Identity
pub mod Message
pub mod Envelope
pub mod Http
pub mod Platform
pub mod World
pub mod Storage
pub mod Screens
pub mod Server
pub mod Signal
pub mod Api
pub mod Registration
pub mod SafetyNumber
pub mod Conversation
pub mod Group
pub mod Call
pub mod App
pub mod Tests
