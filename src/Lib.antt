-- ===== src/Lib.antt =====
-- gatt, a library for Bluetooth Low Energy: the attribute protocol of its server and client, the
-- logical channels and the host controller interface below it, and advertising.
--
-- The program. An application builds services (common.go) and gives them to a device. The device
-- numbers their attributes into a table (attr.go). For each remote central that connects, a `central`
-- (central_linux.go, central.go) answers attribute requests from this table; it assembles a response
-- with an l2capWriter (l2cap_writer_linux.go), which keeps it within the MTU of the connection. For
-- each remote peripheral, a `peripheral` (peripheral_linux.go) sends requests and matches the
-- responses. Both run over a connection of linux/l2cap.go, which cuts PDUs into packets of the
-- controller and puts them together again. linux/hci.go dispatches what comes from the controller: packets
-- of data to the connections, events (linux/event) to handlers and to the commands (linux/cmd) that wait
-- for them. adv.go builds and parses advertising data; device_linux.go has the services of a device and
-- what it advertises.
--
-- The modules, and what they model:
--   Uuid           uuid.go: the byte string, Len, Equal, UUIDContains; Text has String and ParseUUID
--   L2capWriter    l2cap_writer_linux.go: every operation; Writes, Chunks and Within have its lemmas
--   Att            const.go: opcodes (Att.Op), error codes (Att.ErrorCode), the error response
--   Profile        common.go: services, characteristics, descriptors and how they are built
--   AttrTable      attr.go: At and Subrange; Generate has the generation of the table
--   Central        central_linux.go and central.go: handleReq; State has the connection's state and
--                  the notifiers, Discovery the three discovery requests, Read the reads, Write the
--                  writes, the MTU exchange and the notifications
--   Client         peripheral_linux.go, peripheral.go: Matching has the choice of a response and finish, Reading the
--                  reads, writes and the MTU exchange, Discovery the discovery of services and
--                  descriptors, Subscriptions the callbacks and the PDUs that arrive unasked
--   Link           a client joined to a server: sendReq with handleReq at the other end; LongRead,
--                  MtuExchange and Notification have what the two do together
--   Hci.L2cap      linux/l2cap.go: the ACL packets, conn.write and conn.loop
--   Hci.Bytes      linux/util/binary_order.go
--   Hci.Command    linux/cmd/cmd.go: how a command is written; Opcode has the opcodes, Host,
--                  LeAdvertising, LeConnection and LeControl the commands, Any all of them as one type,
--                  Layout the lemmas on their bytes, Fields the form of each command
--   Hci.Event      linux/event/event.go: the events; Code has the codes of events and packets
--   Hci.Sent       linux/cmd/cmd.go, Cmd: the commands that wait for an event; Turns has what becomes
--                  of each, and of those that Send has left
--   Hci.State      linux/hci.go: the state of HCI, its commands and conn.write with the controller's
--                  buffers; Handlers and MainLoop have the handlers, Reset resetDevice, Handled what a property of every
--                  handler needs, Lockout and Demux what is shown with it
--   Device         device_linux.go: the services and their table, and advertising
--   Adv            adv.go: Packet has AdvPacket, Parse has the parser of Advertisement
--   Android        android/jni/gatt_server.go, android/jni/central.go, formatUUIDForJava: Maps has Go's
--                  maps; GattServer the server's state, its centrals and notifiers, below it
--                  Callback what Android passes, Characteristics, Descriptors and Dispatch the handlers,
--                  Opening how the server is opened; the others have what is shown of them
--   Examples       concrete inputs
-- A module below one of these has its lemmas; Prelude has what all share.
--
-- How code corresponds to definitions. A byte, a handle and every other unsigned integer is a natural
-- number, with the wrap-around written out where the code can reach it; a byte string is a list. Code
-- that can panic (an index or slice out of range, a call of a nil handler, panic()) returns a
-- `Run`, which is `ok` or `panic`; an error value is an Option or a sum. A method that changes its
-- receiver returns it. A request is a `Slice`: its bytes, and the bytes of the read buffer behind it,
-- which `b[:4]` may reach. A pointer from an attribute to its service, characteristic or descriptor
-- (`pvt`) is the object itself, with the handles that the generation gave it; the map of notifiers
-- leads to positions in the list of all notifiers made, since the application's goroutines keep them.
-- The services that a device is given are distinct objects: one object given twice is not represented.
--
-- The application's handlers are parameters, in the fields of the objects: a read handler is a
-- function from capacity and offset to the calls of Write that it makes, a write handler a function
-- from the data to a status. The client's sendReq is a parameter of its operations; Link instantiates
-- it with the server.
--
-- HCI is a state, and a handler gives the state after it, its effects in order and how it ended; a
-- handler that waits for a mutex or a buffer of the controller is `blocked`. Handlers, which the code
-- starts in goroutines, run one after another, each to its end. The controller is a parameter: a
-- function from a command to the bytes of its response.
--
-- Of Android, what it passes to a callback and what its calls answer are parameters; its objects are
-- numbers. The centrals and notifiers that pointers lead to are kept in the order of their making, and
-- a pointer is a position. Callbacks run one after another.
--
-- Most loops over slices are structural recursion. Three of the others run on fuel: drain (each round
-- takes four bytes off the buffer) and write_loop (each round sends at least one byte), for which the length is
-- enough, and the parser of advertising data, whose rounds take a byte or more. So do the loops over
-- the entries of a discovery response. The client's long read and its discoveries, which a server can
-- keep going for ever, say `running` and `searching` where their fuel ends.
--
-- Not modelled: the interleaving of goroutines (a connection handles one PDU at a time, HCI one packet),
-- contexts and logging, sockets and the opening of devices (linux/socket, linux/gioctl, linux/device.go,
-- linux/devices.go), the pool of buffers (linux/util/byte_pool.go), Close of linux/hci.go,
-- the callbacks and options of devices (device.go, option_linux.go), the texts of names (known_uuid.go,
-- the company table of adv.go, the String methods but UUID's), the backend for macOS (*_darwin.go), of Android
-- (android) all but its GATT server, and the examples.
pub mod Prelude
pub mod Uuid
pub mod L2capWriter
pub mod Att
pub mod Profile
pub mod AttrTable
pub mod Central
pub mod Client
pub mod Link
pub mod Hci
pub mod Adv
pub mod Android
pub mod Device
pub mod Examples
