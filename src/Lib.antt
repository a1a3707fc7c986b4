-- ===== src/Lib.antt =====
-- A collection of small Linux programs, the parts of them that keep state or compute.
--
-- The parts and the files that model them:
--   * snull/snull.c and snull.h, a pair of network devices that loop each frame back to the twin: Snull.
--     Snull/Types has `struct snull_packet` (Packet), `struct snull_priv` with the fields used of
--     `struct net_device` (NetDevice) and the kernel's state (World); a packet and an skb are numbers,
--     their addresses. Snull/Buffers has the four routines on the linked lists, snull_get_tx_buffer
--     and the like without their prefix; Snull/Receive has snull_rx, both interrupt handlers and
--     snull_poll; Snull/Transmit has snull_tx, snull_hw_tx and snull_tx_timeout; Snull/Setup the pools,
--     opening, configuration and headers;
--     Snull/Registration loading and unloading; Snull/Run the states that transmissions and polls lead
--     to under NAPI, in any order, from loading on, frames that follow one another under either handler,
--     repeated polls, and what unloading frees. Snull/Chains says what it is for the lists to be well formed.
--   * select/chat-server/server.c and client.c: Chat. Chat/Server has the table of clients, one
--     function per function of the program, and the rounds of its loops; Chat/Server/Start the set-up of
--     its socket, Chat/Server/Reach the states that connections and rounds lead to, in any order, and
--     Chat/Server/Shutdown the threads around the mutex when SIGINT comes; Chat/Server/Race is what can
--     happen between two of the steps of `main`.
--     Chat/Client has the client's loops and its program; Chat/Conversation follows a line from one
--     client to the others.
--   * linux-netdevice-driver-test/dummy-hw.c and dummy-eth.c: Dummy. Dummy/Hardware has the queue of
--     frames and the steps that the driver and the thread make in any order; Dummy/Ethernet the
--     replies over the bytes of a frame, the receive callback and the counters, of which
--     Dummy/Ethernet/Processors has a set
--     for each processor; Dummy/Link the two
--     together, a frame on its way down and its reply on its way up; Dummy/Module the life of the module.
--   * select/link_monitor/link_monitor.c: LinkMonitor, with `main` over the kernel's answers;
--     LinkMonitor/Names has the names of links, and LinkMonitor/History the events of a run.
--   * netfilter/test1 to test4, the kernel modules: Netfilter, the four hooks and the loading of test3;
--     Netfilter/Modules the loading of the other three, and Netfilter/Path a packet on its way past them.
--     Netfilter/Userspace has the program of test4 that decides on the queued packets.
--   * netlink: Netlink. Netlink/Show is route_show.c and Netlink/Monitor route_monitor.c, each from its
--     arguments to the code it returns; Netlink/Echo is netlinkKernel.c and netlinkUser.c, and the
--     message that they exchange.
--   * test-proc/proc_demo.c and sysfs/sysfs_demo.c: Demo/Proc and Demo/Sysfs, and Demo/Life from loading
--     to unloading.
-- Base has what the parts share, and Text the byte strings of C.
--
-- The devices of snull interact through the shared lists: a packet that is sent leaves the sender's pool
-- for the receiver's queue and comes back. The threads of the chat server share its table, which each
-- function reads and writes under the mutex and so in one step. The dummy device gives its frames to the
-- hardware's queue, whose thread gives them back to the device's receive callback.
--
-- An access that C leaves undefined, such as one through a null pointer, past the end of an array or
-- of a spin lock taken twice, is a Fault, or the `none` of a function that says so; only the value of
-- `csum_partial` over a range that goes past a frame is left open, as a parameter. Counters of the type `unsigned long` wrap round at 2 ^ 64.
-- Loops over a linked list run on fuel: one more than the number of packets on the list is enough, by
-- theorems below. The kernel's checksum and the C library's formatting are parameters. Allocations
-- succeed or fail as the state's list says.
--
-- Not modelled: log output, the time that the route monitor prints and the usage texts, the fields that a
-- driver fills for the kernel and the tables of its operations, preemption within the drivers'
-- routines, and the macros of the kernel's headers that walk over a netlink message.
pub mod Base
pub mod Snull
pub mod Chat
pub mod Demo
pub mod Dummy
pub mod LinkMonitor
pub mod Netfilter
pub mod Netlink
pub mod Text
