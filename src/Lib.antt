-- ===== src/Lib.antt =====
-- The HU library of this repository: what its C code does, and theorems about it.
--
-- Parts, and how they interact. A transport (lib/app/uart.c, lib/app/udp.c, lib/app/usb.c) hands
-- received bytes to the packet receiver lib/hu/hupacket.c, which splits a packet and calls the
-- handler that is registered for its command; the handler builds a response in the packet handle
-- and sends it. The flash command of lib/hu/huflash.c decodes its data with lib/hu/ascii85.c.
-- Packet handles, and the memory of the interpreter, come from the allocator lib/hu/palloc.c.
--
-- - Ascii85 and its children: lib/hu/ascii85.c and include/hu/ascii85.h. Ascii85.antt has the
--   functions of the source (encode_ascii85, decode_ascii85, the two length functions), with
--   the parts of their loops by name; Words has the arithmetic of one group, Text the Ascii85
--   text of bytes, which is the specification; Encode, Groups, RoundTrip, Bounds and Errors
--   have proofs.
-- - Hupacket and its children: lib/hu/hupacket.c and include/hu/hupacket.h. Hupacket.antt has
--   the handle (`struct hup_handle`), init_hupacket and reset_hupacket; Respond has the
--   hupacket_* functions that write a response, Receive process_hupacket and process_data;
--   Packet describes well-formed packets, and the other children have proofs: Deliver of what a
--   handler gets, Crc and Checked of packets with a CRC, RoundTrip of what an answer comes to
--   on the other side.
-- - Palloc and its children: lib/hu/palloc.c. Palloc.antt has the block header (`link_t`), the
--   static variables and palloc, pfree, pcalloc, prealloc and _insert_link; Chain has the list
--   of free blocks, which is the specification of palloc, and Release that of pfree; the other
--   children have proofs. Init has palloc_init and _set_block, with Extend for a further range,
--   Stats palloc_stats, Libc the variant over the C library.
-- - Huflash and its children: lib/hu/huflash.c. Huflash.antt has get_partition_id and
--   open_flash_partition; Commands has the three commands with their responses; Decode, Chunks
--   and Closes have proofs.
-- - HupServer and its children: app/src/hup_server.c. HupServer.antt has the thread's loop,
--   Lifetime init_hup_server and deinit_hup_server, Memory what a start takes from the
--   allocator; Serve has proofs, and OverUart those over the interrupt-driven UART.
-- - Uart and its children: lib/app/uart.c. Uart.antt has the handle (`struct handle`) and the
--   initialisers; Async, Interrupt and Poll have the three ways to send and to receive with
--   their callbacks; Ring and Incoming have what the ring buffers and the driver promise;
--   Stream, Drain, Send, Receive, Woken, Returns, Line and Resend have proofs.
-- - Udp and its child: lib/app/udp.c, the transport over a socket; Resources has proofs.
-- - Usb and its child: lib/app/usb.c, the messages of the USB stack and the start; Wait has the
--   start that waits for DTR.
-- - Bbram: lib/app/bbram.c, the count of boots.
-- - Pwmleds and its child: app/src/pwmleds.c, the calibration and the blinking; Periods has
--   proofs.
-- - Blink: drivers/blink/gpio_led.c, a LED that a timer toggles.
-- - Bootloader: lib/hu/bootloader.c, the slot that the bootloader started.
-- - AppMain and its children: app/src/main.c. Network has event_handler, Led the loop of
--   `main`, Commands _ver and _reboot, Start init_app, deinit_app, the clock and `main` itself,
--   which calls the models of the other parts; Answers has the way of a "ver" request through
--   the packet functions, Started what `main` comes to.
-- - ShellCommand and its children: app/micropython/shellcmd.c, the shell command that runs the
--   interpreter (_python, in its two configurations) and the interpreter's terminal; Stdin,
--   Typed and Release have proofs.
-- - Micropython and its child: modules/micropython/src/mphalport.c, the light port, with the
--   files that are imported; Load has proofs.
-- - Camera and its children: app/src/camera.c, the set-up of a camera and the loop over frames;
--   Setup and Frames have proofs.
-- - ExampleSensor: drivers/sensor/example_sensor/example_sensor.c and lib/custom/custom.c.
-- - Common: lists, bytes, strings, signed integers and tests that the parts share.
--
-- Pointers into a buffer are indices, NULL is `none` (or 0 for the allocator), and a store or a
-- read outside of an array is a fault: `none` as a result. Machine words wrap at 2^32. Loops over
-- an array are structural in the bytes that are left; the loops of the allocator have fuel, and
-- one round for each free block and one for the last header are proved to be enough.
--
-- The loops of the transports, of the server and of the LED threads have fuel too, a round for
-- each unit; where they end, so many rounds as the theorems say are enough, and where they do
-- not, the theorems are about every fuel. A semaphore is whether it was given, and what other
-- threads do while one waits or sleeps is a parameter.
--
-- Not of this repository, and parameters of the definitions that call it: the CRC, `itoa`, the
-- send function of a handle, the registered handlers, the number __ELASTERROR, the table of
-- partitions, the slot that runs and the flash areas; the ring buffers, the drivers of UART, USB,
-- PWM, GPIO, video, the clock and of the battery-backed RAM, the sockets, the network, the file
-- system, the shell, the shared heap, the interpreter, the threads and timers. What the theorems
-- rely on of them is in records of laws: IsRing, IsRxRing, IsRxBuffer, IsRxDriver, IsLive, IsWait,
-- IsWoken, IsDriver, IsKernel, IsTake, IsLine, IsNet, IsBbram, IsStack, IsOps, IsSharedHeap,
-- IsInterpreter, IsVideo, IsFs and IsFreeMemory. Not modelled: log messages, the terminal of the
-- shell command with CONFIG_SHARED_MULTI_HEAP, which uses the pointer rx_rb as the ring buffer,
-- the order of the calls of different threads, and the rest of the interpreter's port under
-- app/micropython, a copy of another project's.
pub mod Common
pub mod Ascii85
pub mod Hupacket
pub mod HupServer
pub mod Palloc
pub mod Huflash
pub mod Uart
pub mod Pwmleds
pub mod Udp
pub mod Bbram
pub mod Usb
pub mod Blink
pub mod Bootloader
pub mod AppMain
pub mod ShellCommand
pub mod Camera
pub mod Micropython
pub mod ExampleSensor
