-- ===== src/Lib.antt =====
-- Syntra shares one keyboard, pointer, clipboard and file space between the devices of a user. This
-- library models the core of the program and proves what it is relied on for.
--
-- Proto is the peer protocol, crates/syntra-proto: every datagram between two devices is written by
-- `ProtoEvent::encode` and read by `ProtoEvent::decode`, and all other parts of the program speak
-- through them.
--   Proto/Error, Limits, Event, EventType   errors, constants, messages and their ids (src/lib.rs)
--   Proto/Wire                              scalars on the wire (src/wire.rs)
--   Proto/Validate, Names                   the checks on sizes, counts, names and paths
--   Proto/Validator                         ClipboardFileChunkValidator, a receiver's state machine
--   Proto/Encode, Decode                    one function for each arm of the two matches
--   Proto/RoundTrip, Accepted, Sizes        what is proved of the two together
--   Proto/Examples                          messages and sessions worked out
--
-- HistorySync is crates/syntra-core/src/history_sync.rs: the clipboard history that devices share. A
-- sender splits a record into protocol events with `record_events`; the receiver puts it together again
-- in a `Reassembler`, whose memory is bounded; `ClearCoordinator` has all devices clear their history up
-- to a common boundary.
--   HistorySync/Reassembler                 start, chunk, peer_lost, finish_request, expire
--   HistorySync/Sending                     record_events
--   HistorySync/Clear                       boundaries and ClearCoordinator
--   HistorySync/Records, Slots, Retain      the map of records, the chunks of one, and `HashMap::retain`
--   HistorySync/Invariant, Runs             the states that calls lead to
--   HistorySync/Pieces, Awaits, Delivery, Exchange  a record on its way from sender to receiver
--   HistorySync/Discard, Boundaries, Coordinator  what is discarded, unions, and the phases of a clear
--   HistorySync/Examples                    records and clears worked out
--
-- Clipboard is crates/syntra-core/src/clipboard.rs: ClipboardState (Clipboard/State) tells what the user
-- copied here from what a peer sent; Clipboard/Echo is about contents that come again, and
-- Clipboard/Examples works some out.
--
-- ManualTransfer is crates/syntra-core/src/manual_transfer.rs: files that the user sends to another
-- device. The sender offers a file, the receiver's user accepts or declines, and the receiver then pulls
-- the file chunk by chunk; messages may be lost, so that each end repeats its last one. Its messages are
-- the manual ones of Proto.
--   ManualTransfer/Files                    the file at each end (crates/syntra-core/src/file_transfer.rs)
--   ManualTransfer/Record                   the record of a transfer and the steps its handlers share
--   ManualTransfer/Sender                   send_chunk, decision, receive_result
--   ManualTransfer/Receiver                 prepare_receiver, write_chunk, complete_receiver
--   ManualTransfer/Table                    ManualTransfers, store, next_transfer_id
--   ManualTransfer/Messages                 handle_protocol, receive_offer
--   ManualTransfer/Requests                 send_files, accept, overwrite, decline, cancel
--   ManualTransfer/Clock                    tick, refresh_routes
--   ManualTransfer/Conversation             the two ends and the messages between them
--   ManualTransfer/Sends, Receives          how each end goes on in a pull
--   ManualTransfer/Pull, Handshake          the whole transfer
--   ManualTransfer/Ended, Expiry, Digest    records that have ended, that end, and that are completed
--   ManualTransfer/Afterwards               messages about a transfer that has ended
--   ManualTransfer/Intact, Everywhere       the bytes counted and the bytes written, in every table
--   ManualTransfer/Remembered, Capacity, Admission, Calls  the bounds of the table
--   ManualTransfer/Examples                 a transfer worked out
--
-- Clients is crates/syntra-core/src/client.rs: ClientManager, the table of the devices that the user has
-- set up, each under a handle. Input and clipboard go to the clients that it finds.
--   Clients/Entry                           one client, and the changes to it (crates/syntra-api/src/lib.rs)
--   Clients/Manager                         ClientManager and its methods
--   Clients/Calls                           all calls, and what each means for the client of a handle
--   Clients/Maps                            the ordered map
--   Clients/Changes, Additions, Refinement  the table as a function from handles to clients
--   Clients/Handles, Addresses, RoundTrip, Routes  handles, addresses, round trips and searches
--   Clients/Examples                        a few devices
--
-- Plugins is crates/syntra-plugin-api: a plugin is discovered by its manifest, which is a claim; what it
-- may do is the part of its capabilities that the user approved.
--   Plugins/Capabilities, Grants            capabilities, the roles they fill, and what is granted
--   Plugins/Settings, Choices               SettingDecl, and the values that reach a plugin
--   Plugins/Manifest, Sound                 PluginManifest::validate, and what it lets through
--   Plugins/Examples                        a manifest
--
-- Profiles is crates/syntra-core/src/peer_profile.rs: the Reassembler of the pictures that other devices
-- publish with their names. The time is an argument, in milliseconds.
--   Profiles/Reassembler                    its state and its methods
--   Profiles/Slots, Avatars                 the sizes of the chunks and of what they are put together to
--   Profiles/Runs                           all calls, in any order
--   Profiles/Examples                       a picture of one pixel
--
-- Prelude passes the library's names on and adds lists measured by native numbers, tests on numbers, and
-- the interface `Equality` for the keys of maps.
--
-- A function of the source has its name here. The mutable buffer of a reader is a state that the
-- decoder passes on; a method that changes its object returns the new object, or the error if there is
-- one, where nothing has been written before the last check. A writer returns the bytes that it appends.
--
-- Bytes are numbers below 256 and a string is the list of its UTF-8 bytes. A float is the number that
-- its bits spell, and the tests on it are tests of those bits. `usize` has 64 bits. Integers are natural
-- numbers; the overflow checks of the source are written out, and where a theorem needs a field to fit
-- its type, `IsEvent` says so. The readers of tables count down the entries that were announced. Only `slice::chunks`
-- (`pieces_within`) has fuel: the number of bytes, each piece taking at least one.
--
-- A hash map is a list of entries with distinct keys, which the invariant states, and a key type has an
-- `Equality`. Times are milliseconds, given as arguments. The codec of history records is a library: its
-- two functions are parameters, and that it reads back what it wrote is a hypothesis where it is used.
-- Where the code may panic, the result is optional and `none` is the panic.
--
-- The file system, the random numbers and SHA-256 are not the repository's code: what the file system
-- answers during a call is an argument of the call (`Disk`), the numbers drawn are a list, and functions
-- of libraries are in the record `Library`. That a file is read as it is and written without an error is
-- a hypothesis (`Reads`, `Writes`) of the theorems on whole transfers. In `converse`, which hands the
-- messages of each end to the other one, a list of times stands for the rounds.
--
-- What the standard library says of texts and paths (`trim`, `from_str`, `Path::components`) is in the
-- records `Text` and `Paths`; an `i64` is counted from its least value, since it is only compared.
--
-- Not modelled: `Display`, which formats text for logs; the services that wait for network, timers and
-- devices; the platform back ends; the user interface; the database behind the store.
pub mod Prelude
pub mod Clients
pub mod Clipboard
pub mod HistorySync
pub mod ManualTransfer
pub mod Plugins
pub mod Profiles
pub mod Proto
