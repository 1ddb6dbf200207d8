-- ===== src/Lib.antt =====
-- Verification of VM Foundry (vm-automation-deployment): the JavaScript of its portal.
--
-- The portal serves two programs to the browser: the page portal/static/app.js, where users request
-- virtual machines and administrators approve them, and the SPICE console
-- portal/static/spice-html5/, which shows the screen of a machine and sends it the mouse and keys.
-- The console opens one WebSocket for each channel. Bytes come in through the reader of wire.js,
-- which cuts them into the messages that the connection asks for; messages are read from and
-- written to buffers by the classes of spicemsg.js, over the numbers of spicedataview.js; the
-- inputs channel turns mouse and key events into messages, with the scan codes of utils.js.
--
-- Files:
--   Common       names, tests, lists, bits and integers that all modules share
--   Wire         wire.js (SpiceWireReader) and combine_array_buffers of utils.js; Wire/Stream is the
--                abstract byte stream
--   DataView     spicedataview.js (getUint8 to setUint64)
--   ArrayBuffer  spicearraybuffer.js (SpiceArrayBufferSlice)
--   Constants    enums.js, the constants that are used
--   Messages     spicemsg.js, a module for each message; Messages/Cursor is the walk through a buffer
--   KeyNames     atKeynames.js, the scan codes that are used
--   ScanCodes    the tables of utils.js and get_scancode, keycode_to_start_scan, keycode_to_end_scan
--   Connection   spiceconn.js: opening, the link states, common messages and acknowledgements
--   Inputs       inputs.js: the handlers of the mouse, and the acknowledgements of the server
--   Keyboard     inputs.js: sendText, with its table of keys, and the modifiers of key events
--   Main         main.js: the handler of the main channel, the mouse mode and the channels that it opens,
--                over Agent and Transfer
--   Agent        main.js: the messages to the agent in the guest, their chunks, queue and tokens
--   Transfer     main.js and filexfer.js: the transfer of files, over the messages of Agent
--   Webm         webm.js: the writers of EBML elements and the objects of a file; Webm/Reader is a
--                reader of EBML
--   Lz           lz.js: the decoder, the flip and the conversion; Lz/Tokens is an encoder
--   Bitmap       bitmap.js: the conversion of bitmaps
--   Types        spicetype.js: the parts of the messages of the display and the cursor, with images;
--                Types/Place is the walk through a buffer from an offset on; Messages/Display and
--                Messages/Media are the messages of spicemsg.js that are made of them
--   Png          png.js: the checksums, the chunks and the file of PNG
--   Playback     playback.js: the channel of sound, the file that it makes and the queue of the
--                browser's source buffer
--   Portal       portal/static/app.js (esc, resourceValues, updateSummary, resizeForm,
--                lifecycleControls) and what portal/app.py decides on the same matters (POLICY,
--                PROFILES, ENVIRONMENTS, the approval of validate, validate_resize, and the guards of
--                do_POST and the functions it calls for the actions on a machine)
-- An operation has the name that it has in the source; a method of a class stands in the module of
-- the class. State that the source changes in place is returned. A buffer is the list of its
-- bytes, a number of the source an integer, or a natural number where it cannot be negative.
--
-- Bounds: the loop of the reader that delivers messages runs on fuel; a round for each byte that
-- waits is enough, as long as no message of zero bytes is asked for. The decoder of LZ
-- images runs on fuel; two rounds for each byte of the image, and one, are enough. The loop on the
-- rows of a bitmap has a round for each byte that its rows are said to have, and the loop that cuts
-- a message to the agent one for each byte, which a chunk has at least one of.
--
-- Not modelled: what the other channels of the console (display, cursor, port), which the main
-- channel opens, do with their messages; the images other than LZ and bitmaps (quic); thirdparty/
-- of the console, which is other projects' code; the page of the browser (DOM, canvas, media),
-- alerts and logging.
pub mod Common
pub mod Wire
pub mod Constants
pub mod DataView
pub mod Main
pub mod Messages
pub mod KeyNames
pub mod ScanCodes
pub mod Inputs
pub mod ArrayBuffer
pub mod Keyboard
pub mod Agent
pub mod Bitmap
pub mod Lz
pub mod Transfer
pub mod Webm
pub mod Portal
pub mod Types
pub mod Playback
pub mod Png
pub mod Connection
