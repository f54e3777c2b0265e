-- ===== src/Lib.antt =====
-- WireGuard over TCP: the kernel module's stream transport and the parts of WireGuard that it feeds.
--
-- A device whose transport is TCP sends each WireGuard datagram as one record of a byte stream: an eight-byte
-- header (length, type, flags, checksum), four more bytes for a fragment, and the datagram. The sender of
-- kernel/wg_tcp.c queues whole frames per peer, and a worker writes them to the peer's socket, keeping what a
-- short write leaves. At the other end a worker reads the stream into a buffer, tests each header, looks for
-- the next acceptable one after damage, puts synthetic IP and UDP headers before each payload and hands it to
-- the ordinary receive path, where a replay window (kernel/receive.c) drops repeated counters. Accepted
-- connections belong to provisional peers until they are authenticated, and their number is limited; handshake
-- messages are limited per source (kernel/ratelimiter.c). The peer whose allowed IPs hold the destination of a
-- packet gets it (kernel/allowedips.c), its key pairs follow one another (kernel/noise.c), its timers start
-- handshakes and keepalives and destroy old keys (kernel/timers.c), and its packets pass a queue from many
-- processors to one (kernel/queueing.c). The tools read and print keys as base64 and hex (tools/encoding.c).
--
-- Files, and the code they model:
--   Base         names, lists and numbers that the modules share; Base/Bits has the laws of | & ^
--   Frame        kernel/socket.h (struct wg_tcp_encap_header, wg_tcp_frag_header, the sizes) and kernel/wg_tcp.c
--                (wg_header_checksum, wg_check_potential_header_validity, wg_tcp_build_frame)
--   Reader       kernel/wg_tcp.c: wg_tcp_read_worker (Reader/Worker), wg_sync_header, the buffer's reset. The
--                reader's state is the peer's partial_skb, expected_len and received_len with the socket's queue
--   Peer         kernel/peer.h: the TCP flags and sockets of struct wg_peer; wg_tcp_schedule_write_locked,
--                wg_tcp_peer_request_reconnect_after, wg_tcp_fail_exact_socket
--   Writer       kernel/wg_tcp.c: wg_socket_send_skb_to_peer, wg_tcp_enqueue_frame, wg_tcp_send_frame,
--                wg_tcp_write_worker
--   Link         both ends of one stream
--   Tunnel       kernel/wg_tcp.c: wg_tcp_build_fake_headers
--   Net          the address comparisons of kernel/wg_tcp.c and endpoint_eq of kernel/socket.c
--   Replay       kernel/receive.c: counter_validate; struct noise_replay_counter of kernel/noise.h
--   Ratelimiter  kernel/ratelimiter.c: wg_ratelimiter_allow, wg_ratelimiter_gc_entries, entry_free, whole and in
--                the parts between which other processors come (Ratelimiter/Events)
--   Admission    kernel/wg_tcp.c: the list of struct wg_tcp_socket_list_entry, from wg_add_tcp_socket_to_list to
--                wg_tcp_cleanup_worker
--   AcceptRate   kernel/wg_tcp.c: wg_tcp_accept_rate_allow; struct wg_tcp_accept_source of kernel/device.h
--   AllowedIps   kernel/allowedips.c: the trie (add, remove, lookup), the table of both families with the nodes
--                on the peers' lists (AllowedIps/Table), the loops over a trie (AllowedIps/Walk)
--   Keypairs     kernel/noise.c: struct noise_keypairs and the functions that change it, and
--                wg_index_hashtable_replace of kernel/peerlookup.c
--   Timers       kernel/timers.c, and the handshake initiations of kernel/send.c
--   PacketQueue  kernel/queueing.c: wg_prev_queue_init, wg_prev_queue_enqueue, wg_prev_queue_dequeue
--   Encoding     tools/encoding.c
--   Samples      data of the tests; a Tests module in a folder runs its component at concrete inputs
--
-- Modelling. A byte string is a list of numbers below 256. Unsigned C integers are natural numbers, and where an
-- operation can wrap around the cut to 16, 32 or 64 bits is written out. A lock's critical section is one step;
-- what the kernel answers (allocations, kernel_recvmsg, kernel_sendmsg, getname, times) is an argument. A `break`
-- of the reader's loop is `stop`, its discarding of the buffer included. Every function returns the new state.
-- The kernel's fls and fls64 are the parameter `Bitops`, of which IsBitops says what they return; whether char
-- is signed is the parameter `signed_char`, the timer frequency is `hz`, the random delay of a handshake is an
-- argument. An address is a number of 32 or of 128 bits, whatever the order of its bytes in memory; the nodes of
-- a trie have no parent pointers, and what RCU defers is done at once. The lists of nodes that the peers keep are
-- one list with the owner of each. The packet queue takes no lock, so its functions are cut into one step for
-- each access to shared memory; the consumer's decrement of the count belongs to the reading of the pointer
-- before it. The limiter's functions are cut in the same way, at its locks and its counter; the hash of
-- a source is the parameter `Buckets`.
--
-- Bounds and fuel. The reader's loop has its budget of 64 passes, as the code has. How often the worker queues
-- itself again is bounded by `settle`'s fuel: each run that is followed by another lowers `pending`, a weight of
-- the bytes that are left, so four times the length of the stream is enough. The claims of the cleanup are
-- bounded by the length of the list, which each of them shortens. The loops over a trie take one step more than
-- it has nodes. A call of wg_prev_queue_dequeue takes seven steps at most.
--
-- Not modelled: the kernel's network stack and cryptography, logging and counters (kernel/wg_tcp_debug.c), the
-- debug delay and the injected send errors, checksums of the synthetic headers, netlink and device registration,
-- the handshake messages and cookies, the encryption of packets, connecting, promoting and removing sockets, and
-- the tools but for their key codecs.
--
-- The reader's theorems are about memory that does not run out and a carrier whose address family is IPv4 or
-- IPv6; the model also says what happens without these.
pub mod Base
pub mod Samples
pub mod Frame
pub mod Net
pub mod Tunnel
pub mod Reader
pub mod Peer
pub mod Writer
pub mod Link
pub mod Replay
pub mod Ratelimiter
pub mod Admission
pub mod AcceptRate
pub mod Encoding
pub mod AllowedIps
pub mod Keypairs
pub mod Timers
pub mod PacketQueue
