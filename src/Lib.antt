-- ===== src/Lib.antt =====
-- Verification library for CDS_GUARD, a cross-domain file transfer: a client hands a file to a gateway,
-- the gateway filters it and passes it on to a guard, and two guards carry it over raw Ethernet.
--
-- The parts, and the files that model them:
-- - PacketProcessor/src/encryption/ARIAReference.cpp: Aria and its children. The tables S and KRK are
--   Aria/Tables, DL is `dl` (Aria/Diffusion), Crypt is `crypt` (Aria/Cipher), RotXOR, EncKeySetup and
--   DecKeySetup are `rot_xor`, `enc_key_setup` and `dec_key_setup` (Aria/KeySchedule). The round keys,
--   one array in the program, are a list of rows of 16 bytes.
-- - PacketProcessor/src/encryption/ARIAAlgorithm.cpp: Cbc. The functions keep their names.
-- - PacketProcessor/src/protocol: Protocol. A module is a constructor of `ProtocolModule`, `process` and
--   `undo` are its two methods, `encrypt` and `decrypt` those of the engine. GetProtocolEngine of
--   CDSGuardSub/src/RecvMode.cpp is `get_protocol_engine`.
-- - PacketProcessor/src/PacketBuffer.cpp: PacketBuffer, one function for each method.
-- - CDSGuardSub/src/GuardL2.cpp and include/GuardL2.hpp: GuardL2. The checksum is GuardL2/Crc, the byte
--   order GuardL2/Wire, build_frame, the frame of send_ack and the checks on a received frame are
--   GuardL2/Frame, and receive_reliable_data is GuardL2/Receiver: `step` is one turn of its loop on what
--   select and recv report, `on_start`, `on_data` and `on_end` are the cases of its switch, `drain` is
--   the loop over the packets that came out of order. Of the sender, GuardL2/Sender/Window has
--   on_ack_received and on_packet_loss, Sender/Rtt update_rtt and get_rto, Sender/Frames the loop of
--   send_reliable_data that fills frames_to_send, and Sender/Acks the checks of ack_listener_thread.
--   Transfer is send_reliable_data and ack_listener_thread as one machine: a step is what one of
--   the two threads does under a mutex, so every interleaving is a list of actions, and the frames and
--   times that the threads read are in the actions. A wait may end at any time. Sender/Wait is
--   wait_for_ack, and Delivery takes sender and receiver together.
-- - CDSGateway/src/CdsGateway.cpp, CDSGateway/include/ProxyProtocol.hpp and, of the client,
--   FileTransferAppSub/include/ProxyProtocol.hpp and src/TransferController.cpp: Gateway. The headers
--   that the two copies of make_proxy_header make and the client's layout of a file are
--   Gateway/ProxyHeader; FileSinkSession is `file_sink_session` and the accept loop's test `is_full`.
-- - CDSGateway/src/DoubleArrayTrie.cpp and include/DoubleArrayTrie.hpp: Trie. The characters of a text are
--   Trie/Utf8, Trie/Code and Trie/Chars, the vectors Trie/Array, `search` Trie/Search, the blocks and the
--   queues Trie/State, get_proper_base Trie/Place, and `build` with its four loops Trie/Build: the pointers
--   to its nodes are places in a list. Trie/Search/Automaton says what the vectors have to hold.
-- - CDSGateway/src/FilteringInterface.cpp and include/FilteringInterface.hpp: Filter. `censor` is
--   Filter/Censor, the loops of enqueue_censor_document_file over the XML text Filter/Documents, and
--   worker_loop Filter/Workers; RegexSearch, get_string_matched_info_by_rule, build_trie,
--   build_regex and build_all are Filter/Rules, where std::regex is a parameter, and the places in bytes of
--   what the deep-learning server answers Filter/CharPlaces.
-- - CdsGatewayFilteringProcessingLoop is Gateway/Processing; DispatchFilteredPayloadTcp of
--   CDSGateway/src/main.cpp and run_recv_mode of CDSGuardSub/src/RecvMode.cpp, its reader, are
--   Gateway/Dispatch.
-- - CdsGatewayFinder of FileTransferAppSub/include and CdsGatewayStartDiscoveryResponder of
--   CDSGateway/src/CdsGateway.cpp are Gateway/Discovery, where hmacPsk is a parameter: it calls a library.
--   The discovery of a guard, CdsGatewayDiscorverGuard and CdsGuardStartDiscoveryResponder of
--   CDSGuardSub/include/CdsGuardServer.hpp, differs in its words and in the bytes of the port, which a
--   `Dialect` holds. Gateway/GuardEndpoint is the guard that the gateway keeps and connects to.
-- Prelude holds what they share, Examples the tests and each result at a concrete input.
--
-- The engine uses the cipher through Cbc; the receiver takes frames as the sender's build_frame lays them
-- out, and GuardL2/Frame/RoundTrip is where the two meet. The gateway reads what the client lays out.
--
-- Bounds and fuel: bytes are numbers below 256 and a word keeps its wrap-around as a remainder; the host
-- is little-endian and size_t has 64 bits. The loop over the packets out of order runs on the size of
-- their map, which each turn makes smaller; the loop that fills frames_to_send on the count of packets
-- left; the three loops over the sender's window on the count of numbers in it. The loop along the failure
-- links runs on the size of the text, the breadth-first and depth-first loops of `build` on the count of
-- nodes, get_proper_base on 4 turns, and the loop of RegexSearch on one turn more than the text has bytes,
-- which is enough where no match is empty. Every other loop is a recursion on a list or a count.
-- `none` stands for an access outside an array. The random device of the initial vector is a function
-- from the number of the draw to its value. What `reserve` grants is the parameter `reserve_limit`.
--
-- Not modelled: raw sockets and their set-up; of the gateway the archives, images and requests of the
-- filter, the text of an address, the unused UDP dispatch and the threads that hand connections over;
-- run_send_mode, a loop over a socket that calls the sender; and the user interfaces.
mod Prelude
pub mod Aria
pub mod Cbc
pub mod Protocol
pub mod PacketBuffer
pub mod GuardL2
pub mod Trie
pub mod Filter
pub mod Gateway
mod Examples
