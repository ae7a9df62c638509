-- ===== src/Lib.antt =====
-- libmoon: the C and C++ core under src/ that packet processing scripts run on.
--
-- The parts and their files. The program finds its Lua code and starts a script, which runs as tasks on
-- several cores. It configures network cards, takes packet buffers from a mempool, writes packets into
-- them, has the checksums prepared for the card, sends and receives them, with time stamps of clocks
-- that it keeps together, and hands buffers between tasks through rings and pipes; tasks share results,
-- maps, locks and barriers, and ask whether the run goes on. Packets can be read from and written to
-- pcap files. For some cards there is more: the transmit scheduler, timer and rate limits of an E810,
-- the link of an i40e, the filters of the flow director.
--
--   src/pktsizedring.cpp, .hpp   PktSizedRing: create_psring, the psring_ functions; Queue is the
--                                bounded queue that they implement
--   src/bytesizedring.cpp, .hpp  ByteSizedRing: create_bsring, the bsring_ functions
--   src/util.c                   Checksum: get_ipv4_psd_sum, get_16b_sum, get_ipv6_psd_sum and the
--                                calc_ functions that write the sum into a packet; Offload has a
--                                card that completes the checksum
--   src/memory.c                 Memory: alloc_mbufs, init_mem
--   src/pcap.cpp                 Pcap: libmoon_write_pcap, libmoon_read_pcap and its batch
--   src/lifecycle.cpp            Lifecycle: handler, is_running, set_runtime
--   src/task-results.cpp         TaskResults: the task_ functions; Refine has what they keep
--   src/namespaces.cpp           Namespaces: the namespace_ functions; Shared is the map that they keep,
--                                Locked one namespace with its mutex
--   src/ice.c                    Ice: ice_read_current_timer
--   src/device.c                 Device: dpdk_configure_device, dpdk_get_socket, dpdk_send_all_packets,
--                                dpdk_send_single_packet, dpdk_try_send_single_packet,
--                                symm_rss_hash_key, with the Toeplitz hash of a card in Device.Rss
--   src/device.c                 Receive: dpdk_receive_with_timestamps_software
--                                Ports: dpdk_get_mac_addr, dpdk_get_pci_function, dpdk_get_pci_id and
--                                the accesses to registers
--   src/barrier.cpp              Barrier: make_barrier, barrier_wait, barrier_reinit
--   src/tx_scheduler_ice.c       IceScheduler: every function; Types has the structures
--   src/ice.c                    Ice.Limits: the timer's owner and reset, the rate limits
--   src/i40e.c                   I40e: i40e_get_link_status_workaround and two getters
--   src/filter.c                 Filter: every function; Types has the structures, Print the loops
--                                that print
--   src/timestamping.c, .h, src/timestamping_i40e.c, _igb.c, _ixgbe.c
--                                Timestamping: every function
--   src/ring.c                   SpscRing: every function but free_ring
--   src/pipe.cpp                 Pipes: every function but the two that delete a queue
--   src/main.cpp, src/task.cpp   Start: the base directory and the search path of Lua
--                                Launch: the start of Lua, as program and as task of a core
--   src/lock.cpp, src/rdtsc.h    Locks, Tsc: every function
--   examples/c-integration/swap-macs.c
--                                SwapMacs: swap_macs
--   several of these             Traffic: a pool's buffers go out on a queue; packets go through a
--                                packet-sized ring to a queue
--
-- A definition has the name of the function that it models. A structure is a record with the fields
-- of the source, and a function that changes it returns the new one. A buffer is its address, a
-- number; the fields that a function reads or writes are a function from addresses. Numbers are
-- natural numbers, and each operation of a w-bit integer is written with its wrap-around. Prelude
-- holds the operations on words and bytes, the tests, and the lemmas on lists.
--
-- DPDK is no part of this repository. RteRing.Defs has the operations of its ring and what its
-- documentation says of them, as a record that the three rings take as a parameter; RteRing.Fifo is an
-- instance. Memory has a record of the same kind for a mempool. The byte swap, the allocation of a
-- single buffer, the clock and its frequency are arguments, and so is a card: what it answers to each
-- call that sets it up, a transmit queue that takes some of the packets it is given, a receive queue,
-- and how it completes a checksum.
-- Parameters of the same kind are the driver of the E810 (IceScheduler, Ice.Limits), the driver of the
-- flow director (Filter), a register file whose clocks run (Timestamping), the queues of moodycamel
-- (Pipes), the C interface of Lua (Launch) and the file system (Start).
--
-- Bounds and fuel. The loop that rounds up the size of a packet-sized ring gets 29 rounds, that of a
-- byte-sized ring 30: the capacity is clamped to 2 ^ 28 - 1, and capacity / 60 is below 2 ^ 27, so both
-- end before. The unrolled loop of alloc_mbufs has a unit of fuel for each buffer, and `len` units are
-- enough for `len` buffers. A sending loop has a unit for each call of the card; enough are given when
-- the card takes nothing only a bounded number of times in a row. The receive loop has a unit for each
-- round, the search for an aggregator one for each sibling. The other loops run over a list or count. A
-- batch in a sequence of calls is smaller than 2 ^ 31, since its size is an int on the Lua side. A
-- byte-sized ring can be made with any capacity of 32 bits; its byte count is followed for capacities
-- below 2 ^ 31, since its sums can wrap and its differences change their sign from there on. What a
-- burst does when it passes on more buffers than it has been given is not modelled further: the call
-- then has no result.
--
-- Concurrency. A ring has one producer and one consumer. In the module of a ring their calls are taken
-- one after the other; the child Threads of the two sized rings has them on two cores, with a step for
-- each load or update of shared memory and each call on the ring underneath, in any order of the two. A
-- burst into a byte-sized ring is not among these. Between two steps on a byte-sized ring any task can
-- give the packet in a buffer another length, since the code reads the lengths again after the enqueue;
-- what holds under which of these changes is said with the theorem. The functions of TaskResults and
-- Namespaces hold a mutex, so each is one step; Namespaces.Locked has that mutex, which tasks can hold
-- over several calls. A barrier is a relation of steps, one for each part of barrier_wait between two
-- waits, in any order of the threads.
--
-- Not modelled: the Lua library; the copies of other projects under lib/ and deps/. Of src/device.c,
-- src/util.c, src/memory.c, src/ring.c and src/pipe.cpp the functions are left out that only pass on a
-- call to DPDK, the CPU or the operating system, or that hand out or give back a pointer. Messages on
-- standard error are left out in src/main.cpp and src/task.cpp. `malloc` and `new` are taken to
-- succeed.
pub mod Prelude
pub mod Receive
pub mod RteRing
pub mod PktSizedRing
pub mod ByteSizedRing
pub mod Checksum
pub mod Memory
pub mod Pcap
pub mod Lifecycle
pub mod TaskResults
pub mod Traffic
pub mod Timestamping
pub mod Namespaces
pub mod Barrier
pub mod Device
pub mod Filter
pub mod Ice
pub mod IceScheduler
pub mod Start
pub mod Launch
pub mod Ports
pub mod SwapMacs
pub mod I40e
pub mod SpscRing
pub mod Pipes
pub mod Locks
pub mod Tsc
