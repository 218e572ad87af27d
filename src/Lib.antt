-- ===== src/Lib.antt =====
-- libmobile-atmega: a Mobile Adapter GB on an ATmega328P, and the program on the computer that
-- opens the adapter's network connections.
--
-- The two programs talk over a serial line. On the adapter, atmega328p/source/serial.c buffers the
-- bytes of the line in two rings that the interrupts empty and fill, and atmega328p/source/gbridge.c
-- runs the packet protocol on them. On the computer, bridge/source/gbridge.c runs the other end.
--
-- Files and code:
-- - Prelude and its children: numbers, tests and lists that the other modules share.
-- - Serial.Ring: `struct serial_buffer` and its routines. Inv has the invariant, Refine the relation
--   to a queue, Parts the statements of the routines one by one, Queue any sequence of them.
-- - Serial.Uart: both rings with the registers of the serial unit, `serial_putchar`,
--   `serial_getchar` and the interrupt handlers. Calls says what each does to the queues, Fifo is
--   the transition system of all of them with the hardware. Split is that system with the
--   interrupts between any two statements, and Race has the two places of `serial_putchar` where
--   they do harm.
-- - Wire: the constants of atmega328p/source/gbridge_cmd.h (Cmd), words and checksums (Checksum),
--   the two packet formats (Frame), and the search for the handshake (Search).
-- - Device.State: the static variables of atmega328p/source/gbridge.c as one record, which also
--   holds the bytes in the receive ring, the bytes given to `serial_putchar` and the time.
-- - Device.Receive, Device.Loop, Device.Send: the functions of that file, each `case` of a handler
--   as a function of its own. Device.Fill is the copying loop of the handlers.
-- - Device.Inv, Device.Safe: the invariant and its preservation.
-- - Device.Packet and its children: a data packet on its way through the receiving state machine.
-- - Device.Handshake, Device.Reply, Device.Write, Device.Malformed, Device.Empty, Device.Stream: what
--   the adapter makes of the bytes before the connection, of the wait for a reply, of what it sends,
--   and of packets that it refuses, misreads or receives as streams.
-- - Host.Port: the two calls of libserialport as a parameter, and a line that works as a hypothesis.
--   Host.State, Host.Receive, Host.Loop, Host.Send: the static variables and functions of
--   bridge/source/gbridge.c. Those that have the names of the adapter's functions are called host_
--   here. Host.Line, Host.Packet, Host.Stream, Host.Wait, Host.Sent, Host.Shake: what they come to.
-- - Link: both ends together. Remote: a socket call from one end to the other.
-- - Address: the addresses in the packets of both gbridge_prot_ma.c files.
-- - Device.Sock: the mobile_impl_sock functions of atmega328p/source/gbridge_prot_ma.c. Its children
--   say what a call comes to without a connection (Offline) and with a reply (Answered, Calls).
-- - Adapter: the loop of atmega328p/source/main.c. Adapter.Safe goes through everything below it, with
--   Device.Sock.Waits and Device.Sock.Safe for the functions that wait.
-- - Sockets: the functions of bridge/source/socket_impl.h as an interface. ProtMa and its children:
--   bridge/source/gbridge_prot_ma.c. Handlers has its functions, Requests what a request means,
--   Answers, Fetch, Forward, Ignored and Aborts what the program makes of requests.
-- - Net: bridge/source/socket_impl.c as an instance of Sockets. Net.Os: the calls of the operating
--   system as a parameter. Net.Sockaddr, Net.Socket (bridge/source/socket.c), Net.State, Net.Impl,
--   Net.Recv: `struct socket_impl` and the functions. Net.Owned: which descriptors are open, with the
--   laws of the system on them; Opening, Calls, Accept and Each go through the functions, Run has
--   sequences of calls, Kept and Leak what becomes of the descriptors. Net.Serve says for which
--   requests the sockets are ready, Net.Requests what becomes of a request on the line, and
--   Net.Connect has `socket_connect`, which nothing calls.
-- - Bridge: bridge/source/main.c. Serve has its loop as a server of requests, Whole the program from
--   its start, Descriptors the same on the sockets of Net, Ends its end.
-- - Timer: atmega328p/source/timer.c and the timers of atmega328p/source/main.c.
-- - Tests: runs and instances.
--
-- Bounds: bytes and words are natural numbers with the wrap-around of their C types written out. A
-- read or write outside an array, and a call of `serial_getchar` that would wait, have the result
-- `none`, and so has an array of variable length that has no elements. `serial_putchar` is taken to
-- append to the bytes sent: the wait for room in its ring is modelled in Serial.Uart only. The
-- receive ring is the list of its bytes, in order; it keeps 63, and of the bytes that arrive
-- between two rounds those that find it full are dropped, as in `serial_receive`
-- (Device.Send.arrive). One call of `gbridge_loop` sees one content of this ring and one time:
-- bytes that arrive during the call come with the next round. Serial.Uart.Fifo takes each call of
-- `serial_putchar` and `serial_getchar` as one step; Split and Race let interrupts run inside them.
-- The loops that wait take the list of what happens between their rounds, so they need no fuel:
-- where the list ends first, the result says that the function still waits. The computer's loops
-- take a number of rounds, and the theorems say how many are enough; each read of the port has the
-- bytes that arrive before its timeout.
--
-- Not modelled: the variants of bridge/source/socket.c for Windows, `serial_guess_port` of
-- bridge/source/main.c, setting up the registers, the EEPROM, the stack canary, the error messages of
-- the computer, the code under DEBUG_SPI and DEBUG_CMD, and libmobile, which is not part of the
-- repository.
pub mod Prelude
pub mod Serial
pub mod Wire
pub mod Device
pub mod Host
pub mod Link
pub mod Timer
pub mod Address
pub mod Sockets
pub mod Net
pub mod Bridge
pub mod Adapter
pub mod ProtMa
pub mod Tests
