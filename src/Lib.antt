-- ===== src/Lib.antt =====
-- Verification of newosp, a header-only C++17 library for embedded and industrial systems.
--
-- Parts that are modelled, each a header under include/osp, and how they interact. They are independent
-- of each other but for the heartbeat of platform.hpp, which the watchdog stamps, and FixedString of
-- vocabulary.hpp, in which it keeps names.
--
--   Breaker.antt           include/osp/breaker.hpp. The 32-bit word (Pack, Unpack), the handlers as
--                          transitions of the unpacked state (Breaker/Transitions.antt), Update as a
--                          loop over its exchanges, and the queries. Packed: words against states;
--                          Linear: Update among threads; Levels: the level's moves; Recovery: the way back.
--   BehaviorTree.antt      include/osp/bt.hpp. Tick on the flat array; BehaviorTree/Construction.antt:
--                          AddNode and its callers. Spec: the tree that an array stands for; Refine,
--                          Order, Termination and Laws relate the two.
--   SpscRingbuffer.antt    include/osp/spsc_ringbuffer.hpp. Both sides of the ring, each method as one
--                          step. Fifo: the bounded queue; Contents: the elements that a ring holds;
--                          Wrap: the index arithmetic; Refine, Copies, PushBatch, PopBatch and Client
--                          relate ring and queue; Narrow: index types narrower than int.
--   Watchdog.antt          include/osp/watchdog.hpp. Registration, slot ids with generations, Feed,
--                          Check, the queries and WatchdogGuard. Edges: Check; Ids: the slot ids; Stale: ids that
--                          were given back.
--   Hsm.antt               include/osp/hsm.hpp. StateMachine: the build phase, Dispatch, transitions by
--                          the lowest common ancestor. Total: the walks along the parents end;
--                          Dispatch: the event bubbles up to an end.
--   MemPool.antt           include/osp/mem_pool.hpp. FixedPool by a lone thread; MemPool/Threads.antt: any
--                          number of threads, one atomic access of Allocate or Free at a time. Invariant,
--                          Listing, Kept, Moves: what each access keeps; Safety: who has a block.
--                          Objects: ObjectPool.
--   SerialTransport.antt   include/osp/serial_transport.hpp. Configuration, state, health; Crc; Send:
--                          Send, WriteAll, SendAck; Receive: Poll and FeedByte. Bytes, Storing, Headers,
--                          Deliver, Frames: a frame from its bytes; Timing, Reads: bytes in several
--                          reads; Stream, EndToEnd: messages from Send to the callback; Bounds, Writes
--                          and Noise.
--   TimerScheduler.antt    include/osp/timer.hpp. The table of tasks and a round of ScheduleLoop. Rearm: the
--                          inner loop; Rounds: the table and the sleep after a round; Tasks: ids.
--   ConnectionPool.antt    include/osp/connection.hpp. Counts, Runs: the count; Lookup: the ids.
--   Bus.antt               include/osp/bus.hpp. Types and constants of AsyncBus; Table: Subscribe,
--                          Unsubscribe, DispatchMessage; Ring: PublishInternal, TryEvictAndPublish,
--                          ProcessBatch; Visitor: ProcessBatchWith; Api: the publish functions,
--                          queries, SetErrorCallback, Reset; SpinLock: SharedSpinLock. Entries, Callbacks: the callback table; Queue, Evict, Publish,
--                          Process: the bus as a queue. Bus/Threads.antt: producers and consumer, one
--                          atomic access at a time; Moves, Steps: their moves; Slots, Owners, Effects,
--                          Owning, Kept, Consumer, Aside, Sound: what every step keeps; Safety; Depth:
--                          its two loads.
--   Transport.antt         include/osp/transport.hpp. FrameCodec and SequenceTracker; Copies: memcpy into
--                          and out of a buffer; Codec: headers; Tracker: streams of numbers.
--   Qos.antt               include/osp/qos.hpp. The profiles; Order: compatibility.
--   Base.antt              names, tests, lists and bit fields that the other modules share.
--
-- Numbers are natural numbers with the wrap of the machine type written out (% 2 ^ 32, or 2 ^ width for
-- IndexT). An index that may be -1 is an Option. A failed OSP_ASSERT and an access out of range are
-- `none`, where the operation has them.
--
-- Bounds and fuel. TickNode has fuel for the depth of its recursion, Tick as many as there are nodes; the
-- batch loops of the ring have two turns more than there are items; the walks of the state machine have
-- as many steps as there are states, and its paths OSP_HSM_MAX_DEPTH (32), the size of the array that the
-- source asserts. WriteAll has fuel for the calls of write, a round of the scheduler for the nanoseconds
-- since the clock's start. The positions of the bus are 32-bit words; what is said of its threads holds for
-- the first 2^32 claims since construction, less three times its depth. CooldownCycles fits 16 bits and
-- a ring's capacity is 2 ^ bits, as the source asserts.
--
-- The port of the serial transport is a parameter: what each call of write gives. In the threads of
-- MemPool, the number of the head's changes, the free list and the owners of blocks are kept beside the
-- state; the code has no such variables, and an exchange is assumed to come within 65535 changes of the
-- head after the load, since the tag has 16 bits. So it is with the number of claims, the messages last
-- published and those dispatched in the threads of Bus, on which no move depends.
--
-- Not modelled. The memory orders and the interleavings of the ring's two threads; opening and
-- configuring the serial port, and its ring of received bytes; the threads of the scheduler and of the
-- watchdog (Start, Stop, StartAutoCheck, StopAutoCheck); EventQueue of hsm.hpp; SpinLock of
-- bus.hpp, which nothing uses, and what a callback of the bus does; the transports over sockets of
-- transport.hpp. The other headers of
-- include/osp are not modelled; some are I/O, or copies of other projects (toml.hpp, inicpp.hpp).
pub mod Base
pub mod Breaker
pub mod BehaviorTree
pub mod SpscRingbuffer
pub mod Watchdog
pub mod Hsm
pub mod MemPool
pub mod SerialTransport
pub mod TimerScheduler
pub mod ConnectionPool
pub mod Bus
pub mod Transport
pub mod Qos
