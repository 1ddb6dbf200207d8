-- ===== src/Messages.antt =====
-- portal/static/spice-html5/spicemsg.js: the messages of the SPICE protocol, as records with
-- their from_buffer, to_buffer and buffer_size: a module for each message, where `read` and `write`
-- are the bodies of from_buffer and to_buffer as steps of `Messages.Cursor`; what the display, the
-- cursor and the other channels read is in Display and Media, as steps of `Types.Place`.
pub mod Cursor
pub mod LinkHeader
pub mod LinkMess
pub mod LinkAuth
pub mod MiniData
pub mod Agent
pub mod Input
pub mod Display
pub mod Media
mod Tests
