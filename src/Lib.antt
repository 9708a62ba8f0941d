-- ===== src/Lib.antt =====
-- picoServer-rs: a Minecraft server and proxy for protocol 776. The crate mc-core has the
-- variable-length integers, mc-proto the packets of the states before play, mc-proxy the frames with
-- compression, the server and its play state, mc-world the files of a world.
--
-- A connection appends what it receives to a buffer and takes whole frames off it (Framing,
-- Proto.Frame, Proxy.Frames); a frame holds a packet id and a body, which the packets read (Proto).
-- The frames lead a connection through its phases (Proxy.Connection) into play.
-- In play, `handle_sb_packet` changes the server's state by one packet (Proxy.Play), every tick runs
-- the pickup of items (Proxy.Pickup, which puts them away by Proxy.Inventory), and a move sends the
-- chunks that came into view (Proxy.Follow, with the chunks of Proxy.State).
--
-- Base: the shared helpers. A reader is a function from the bytes that remain to a value, an error or
--   a panic, a writer appends to a buffer, and a codec is a writer and a reader that belong together.
-- Varint: crates/mc-core/src/varint.rs. `VarInt::write`, `read`, `encoded_len`, `to_bytes` and
--   `from_bytes` are write_var_int, read_var_int, var_int_len, var_int_to_bytes and
--   var_int_from_bytes, and the same with var_long for `VarLong`.
-- Framing: the length prefix and the packet id of a frame, which crates/mc-proto/src/packet.rs and
--   crates/mc-proxy/src/config_handler.rs both take off a buffer, and the loop over a buffer.
-- Proto: crates/mc-proto/src. State, Error, Packet, Frame (packet.rs, state.rs), Text and Handshake
--   (handshake.rs), Login, Status, Config. The trait `Packet` is a record with the id and the methods.
-- Proxy.Frames: `frame_packet` and `try_read_frame_compressed` of config_handler.rs.
-- Proxy.Registry: `build_registry_packets` of config_handler.rs.
-- Proxy.Ids: crates/mc-proxy/src/packet_ids.rs.
-- Proxy.State: server_state.rs and player.rs. Proxy.LoginPacket: login_packet.rs. Proxy.Chunk: chunk.rs,
--   with `parse_chunk_sections` in Proxy.Chunk.Sections and what it finds in Proxy.Chunk.Layers.
-- Proxy.Relay: what crates/mc-proxy/src/relay.rs reads of the packets that it passes on.
-- Proxy.Connection: the phases of `handle_connection` of crates/mc-proxy/src/server.rs.
-- Proxy.Captured: the files of captured packets, whose names relay.rs writes and `run_play_phase` reads.
-- Proxy.Burst: `send_initial_packet` and what `run_play_phase` sends, same file.
-- Proxy.Follow: `send_chunks` and what follows a packet, a move and a tick in `finish_play_start`, same
--   file. Proxy.Session puts them together: `finish_play_start` with its loop as a step relation;
--   Proxy.Session.Client is a client that reads what the server sends.
-- Proxy.Play, Proxy.Position, Proxy.Inventory, Proxy.Pickup: `handle_sb_packet` and the pickup part of
--   `send_per_tick` of crates/mc-proxy/src/server.rs.
-- World.Nbt: crates/mc-world/src/nbt.rs, with the tag types (Tag), the getters (Get) and the format
--   written down on its own (Encode).
-- World.Packed, World.Section, World.Chunk: crates/mc-world/src/chunk.rs. World.Packed is
--   `extract_packed` and `calculate_bits_per_block`, World.Section is `ChunkSection` with `BlockIter`,
--   World.Chunk is `Chunk` with `ChunkBlockIter` (run to the end in World.Chunk.Shifted), and
--   World.Chunk.Parse is `from_nbt`.
-- World.Region, World.Store: crates/mc-world/src/region.rs and world.rs. `RegionFile` reads its file,
--   a list of bytes; `World` finds the file of a region by its name (World.Region.Name) and caches it.
--
-- A machine word is a number below 2 ^ w; a signed one is the pattern of its two's complement, and
-- arithmetic wraps as it does in the release profile. Bytes are numbers, and a theorem says where it
-- needs them below 256. A `String` is the list of its bytes, with a test for UTF-8. `Bytes` and
-- `BytesMut` are lists of bytes, whose methods do what the crate `bytes` documents: a read or a split
-- past the end is a panic, and so is an index out of bounds. A hash set is the list of its elements.
-- The state of the server is passed explicitly, and so are the uuid that a broken block draws and the
-- set BLOCK_CHANGES.
--
-- Parameters: the compressor `flate2` (Zlib, and Decoders for the streams of a region file), the crate
-- `uuid` (UuidCrate), and f64 (Floats), with the laws that the records name. The template chunk is an
-- argument of `to_bytes`, and the registries and tags, constants built into the binary, are arguments
-- of `build_registry_packets`. The directory of a world is a function from the names of files to their
-- contents; the one that is searched for captured packets is a list of names and contents.
--
-- The loops of the integers run by well-founded recursion or over the bytes that are left. Fuel is used
-- in these places: the loop over a buffer, where each round takes a frame, so one round more than there
-- are frames is enough; `read_payload` of the NBT reader, a step for each level of nesting, and its loop
-- over a compound, where each level and each entry takes a byte, so one more than there are bytes is
-- enough; `calculate_bits_per_block`, whose loop stops at 63 bits at the latest; and the iterators of
-- sections and chunks, which have as many rounds as there are cells or sections left. The scan of
-- `parse_chunk_sections` stops at position 2000 and gets 1992 steps from position 8.
--
-- Not modelled: sockets, timers, logging and the command-line tools; JSON, which serde_json prints; the
-- forwarding of the relay; and the built-in registry data. Running out of memory is left out as well.
pub mod Base
pub mod Varint
pub mod Framing
pub mod Proto
pub mod Proxy
pub mod World
