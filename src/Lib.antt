-- ===== src/Lib.antt =====
-- The flows of the IVR control plane (server/app): the documents that an author edits, their
-- validators, their compilers and their simulators; and its recordings: encrypted uploads, the
-- interfaces that receive them, the quota, and playback.
--
-- An author draws a flow, a tree of blocks (server/app/schemas.py). Before it is published, the
-- validator lists the errors of the flow (server/app/validation.py), and the compiler turns it into a
-- tape of instructions with a bound on the length of a session (server/app/compiler_v2.py,
-- compiler_v3.py, compiler_v4.py). The simulator plays a call through on the tree
-- (server/app/simulation_v2.py, simulation_v3.py, simulation_v4.py). Releases 2, 3 and 4 of each have
-- one definition here, with the release as a parameter; each release's function also has its own name.
--
-- A tablet that runs a flow records callers. It announces a recording and its segments
-- (server/app/conversation_recording_api.py, session_audit_api.py, recording_api.py), sends them in
-- chunks that are stored encrypted, and asks for their completion, upon which the audio is checked,
-- encoded and encrypted (server/app/recording_service.py). It keeps its own copy until the server
-- acknowledges the recording.
--
-- Base: names of the libraries, tests on numbers, lists measured by native numbers, results that carry
--   an exception, and the count of a text in a list, which forgets the list's order.
-- Flow: `FlowBlockV2` and its members as the data types Block, Child and Branches. Flow/Walk:
--   `owned_children`, `walk_blocks`, `prompt_ids` and `block_label` of server/app/flow_v2.py.
--   Flow/WellFormed: the flows that a release can run, described without the code that checks them.
-- Compiler: the tape and the errors. Compiler/Collect: the nested function `collect`, as a function of
--   the state that it shares (`entries`, `seen`). Compiler/Emit: `program_counter` and the loop that
--   builds the instructions. Compiler/Cost: the nested function `maximum_cost`; Compiler/Cost/Runs is
--   what a call can do on a tape, as a step relation. Compiler/Compile: the compilers as a whole.
-- Validation: the nested function `visit` with the variables that it shares, and the tests of
--   schedules, sizes and depth. Validation/Whole: the validators as a whole; its children compare the
--   walk with Flow/WellFormed and with the compilers.
-- Graph: `_walk`, `_find_cycle`, `_maximum_depth` and `_can_reach_end` of server/app/validation.py,
--   which the validator of the first release uses on flows that are graphs. Graph/Validate: that
--   validator, `validate_configuration`, under the name `validate_graph`.
-- Simulation: the state of the loop. Simulation/Loop: one transition, and the 512 transitions.
-- Recordings: bytes and errors of server/app/recording_service.py. Recordings/Cipher: `RecordingCipher`
--   with the layout of encrypted chunks and media; Recordings/Cipher/Keys: its constructor;
--   Recordings/Cipher/Files: `encrypt_media_file` and `decrypt_media_file`.
--   Recordings/Upload: the chunk files of an upload, `store_chunk` and the two readers;
--   Recordings/Upload/Content is the content that the files hold, as a data type beside the code.
--   Recordings/Audio: the checks of WAV audio and of encoded audio.
-- Api: the rows of server/app/models.py that the three upload interfaces share, and their errors.
--   Api/Quota: `recording_used_bytes` and the capacities. Api/Segments, Api/Content, Api/Complete: the
--   handlers of server/app/conversation_recording_api.py and session_audit_api.py, one definition for
--   both with the kind of recording as an argument; Api/Endpoints has their names. Api/Create: their new
--   recordings. Api/Assembly: `assemble_conversation_recording`. Api/Voicemail: the handlers of
--   server/app/recording_api.py for devices, and `finalize_recording`. Api/Retention: deletion, expiry
--   and clean-up. Api/Playback: `load_media`, `materialize_media` and `_media_path`, and the byte ranges
--   of server/app/recording_api.py.
--   Api/Handlers: sequences of requests. Api/Capacity is about the quota, Api/Lifecycle about
--   acknowledgements, Api/Retry about creations that are sent again.
-- Samples: the flow on which the tests of the modules run.
--
-- Exceptions are values of a result type. `maximum_cost` recurs on fuel, `cost_fuel`: the number of
-- instructions for each return that the menus still allow, which each call on a forward tape lowers.
-- `walk_blocks` takes one round for each block, and `_walk` one for each edge and the root, since a
-- round takes one from the stack. The recursive functions on graphs take the number of keys and two:
-- their `active` holds different keys.
-- The cache of `maximum_cost` is left out, since the function is pure. Sets are lists without
-- repetition, dictionaries are association lists.
--
-- Parameters stand for the hash and the encoder of documents (`Digests`), the durations and sizes of
-- prompts, the time zones that the system knows, and the order in which a set is run through. Patterns
-- and ranges of fields, which the schema library checks when a document is read, are not modelled; a
-- digit is one of the twelve keys.
-- The authenticated cipher with its key derivation (`Aead`) and the digest of a recording are
-- parameters too; `IsLawful` says that what was sealed opens and that a tag has 16 bytes, `IsStreamed`
-- that the incremental interface of the library agrees with the other one. Nonces, clocks and the
-- texts that make up the names of media are arguments; `IsNamed` says that such a text has 32 digits.
-- A media file is part of the row that names it: two rows do not share a name. The readers of an
-- upload take one round of fuel for each byte, and a round reads at least one; so does the loop over
-- the pieces of a media file.
-- The reader of WAV files and the audio encoder are parameters (`Tools`). A loop over frames takes one
-- round of fuel for each frame, and a round reads at least one. A handler returns the rows after the
-- commit with the reply, or the error of the exception that rolls the session back; a table is a list
-- in which a row is found by its key. Requests are served one behind the other: the locks of the
-- database keep them apart.
-- Not modelled: a file that shrinks while it is decrypted; audio itself; the operator's number and
-- notices of a recording; the quarantine of media files; notifications, the handlers of the dashboard,
-- the Android app, the native helper and the dashboard.
pub mod Base
pub mod Flow
pub mod Compiler
pub mod Validation
pub mod Graph
pub mod Simulation
pub mod Samples
pub mod Recordings
pub mod Api
