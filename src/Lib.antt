-- ===== src/Lib.antt =====
-- decom, a C++ communication library of stacked layers (src/ of the repository).
--
-- A stack is a chain of layers between an application (a device, src/dev.h) and an interface (a
-- communicator, src/com.h) with protocols (src/prot.h) between them. A layer hands data down by `send`
-- and up by `receive` and `indication` (src/layer.h). All data are messages (src/msg.h): chains of
-- pages out of one static pool.
--
-- Files:
--   Base      shared names, Boolean tests, lists, stores and integers.
--   Layer     src/layer.h: `eid`, status codes, and the calls a layer makes on its neighbours (Effect);
--             Order: the order on identifiers. Stack: the pointers `lower_` and `upper_`, which the
--             constructors and the destructor set; Linked, Build, Destroy, Changes: its theorems. Stats: the
--             handlers of the base class with their statistics.
--   Msg       src/msg.h. Pool: pages, `page_alloc` and `page_free`; Ops: the operations of class `msg`
--             at its two ends; Bulk: those on whole messages; Iterator: class `msg_iterator`, and
--             `insert`, `erase` and `operator==`. Chain, Alloc, Last: well-formed messages and what
--             they hold; Read, PushBack, Front, PopFront: the operations' theorems; Page, Steps: one
--             page as a span of bytes, and an iterator's steps on it; Walk, Insert, Erase, Crossing.
--             Pages: a message as the list of its pages, and what a deep copy keeps of it.
--   Iso15765  src/prot/automotive/prot_iso15765.h. Types: the state and constants; Transmit: `send`,
--             `indication`, `send_CF`, `confirm_CF`, the timers' callbacks; Receive: `receive` and
--             `send_FC`; Link: two layers on one bus; Begin, Transfer, RoundTrip: a whole transfer;
--             Single: one in a single frame; Refused, LostFrame: a frame that the lower layer
--             refuses, and one that is lost.
--   Bridge    src/dev/dev_bridge.h; Gateway: two of them between SLIP layers. Echo: src/dev/dev_echo.h.
--   ComGeneric src/com/com_generic.h; Slot: what the application reads.
--   DevFile   src/dev/dev_file.h. Stream: what the code uses of the C++ library's file streams; Segment: a
--             call of `send_segment`; Transfer, Padded: a whole file. A round of `worker` is one step
--             between the handlers.
--   Delay     src/prot/prot_delay.h; Buffer: the layer as a buffer with one place.
--   Scheduler src/prot/prot_scheduler.h and .cpp: the calls that configure it; Timer: the timer's
--             callback; Sound: what a configuration refers to; Periodic: one message with an
--             interval; Service: the callback over several periods; Heads, Injection.
--   Generic   src/dev/dev_generic.h. Device: the state and the handlers; `write` is cut at its wait into
--             `write` and `written`. Reception, Writes: its theorems.
--   Loopback  src/com/com_loopback.h; Order. A round of `worker` is one step between the handlers.
--   Hub       src/prot/prot_hub.h. Dispatch: the registered layers and the handlers; Receive.
--   Xmodem    src/prot/prot_xmodem.h and .cpp. Machine: the state and the handlers; Course, Payload,
--             Transmission: a whole transmission; Bounds; Checksum: a block; Faults.
--   Timer     src/impl/windows/util/timer.h: the timer, over readings of the system's counter; Periodic. A
--             round of the loop in `worker` is a step.
--   Util      src/util/util.h; ByteOrder: `ntoh`.
--   IntelHex  src/prot/prot_intel_hex.h. Reader: the state and the handlers; Text: what the text of a
--             file is; Digits, Record, File, Process: the text's parts; Delivery: a
--             whole file.
--   Sntp      src/dev/IP/dev_sntp.h. Time: the fixed-point time stamps; Client: the header and the
--             handlers; `get_time` is cut at its wait into `get_time` and `got_time`. Arith, Offset,
--             Header, Attempts: its theorems.
--   Serial    src/impl/windows/com/com_serial.h. Param: the parameters; Opening, Account, Reopened. What the
--             operating system answers is an argument; a round of `worker_thread` is a step.
--   Slip      src/prot/prot_slip.h: `open`, `close`, `send`, `receive`. Frame, RoundTrip, Resync.
--
-- In Msg a pointer to a page is the page's index and an operation is a command on the pool. A command
-- has no result where the code would dereference a null pointer, access a page behind its buffer or
-- walk a cyclic chain for ever. A walk over a chain gets 129 rounds: a chain without a cycle has at
-- most the 128 pages of the pool. A walk with an iterator gets 16385 steps: the pool has 16384 bytes
-- (128 pages of 128), and a page takes as many steps as it has bytes, or one step if it has none.
--
-- In the protocols a message is the sequence of its bytes, so that a pool without free pages is not
-- modelled there. Where a layer makes a deep copy of a message (Xmodem, Delay, Loopback, Hub,
-- Scheduler, ComGeneric), it is given the list of its pages (Msg.Pages), as the copy keeps only the
-- first one. A handler returns the new state of its layer, its result, and the calls on its neighbours
-- in their order; what the lower layer answers is an argument. Calls that a neighbour makes back into
-- the layer come after the handler. Logging, mutexes and layer names are left out, and the statistics
-- but in Layer. The walk over a message visits a byte of each page without bytes (begin of an empty
-- message is not its end): it does so in Msg and in the reading from Generic; elsewhere it visits the
-- message's bytes. A Timer's numbers wrap at 64 bits, and its period is not negative. In Layer the
-- walk through a stack gets as many rounds as there are layers, or more. In Sntp the readings of the
-- clock are arguments and `to_time_t` of the C++ library is a parameter.
--
-- Not modelled: the frame protocol, which does not compile (`open` names a variable that is not
-- declared), the disturb and debug protocols and the null communicator, which hand everything on or do
-- nothing but log; the skeletons, which are templates for new layers; the sockets, the USB devices and
-- the console of the Windows implementation (src/impl), which are calls of the operating system; log
-- output.
pub mod Base
pub mod Bridge
pub mod ComGeneric
pub mod Delay
pub mod DevFile
pub mod Echo
pub mod Generic
pub mod Hub
pub mod IntelHex
pub mod Iso15765
pub mod Layer
pub mod Loopback
pub mod Msg
pub mod Scheduler
pub mod Serial
pub mod Slip
pub mod Sntp
pub mod Timer
pub mod Util
pub mod Xmodem
