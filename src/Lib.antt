-- ===== src/Lib.antt =====
-- Verification of the Power API reference implementation: the device plugins, and the daemon's router with
-- the events that it passes between clients and servers.
--
-- The framework (src/pwr) drives the machine's sensors through plugins (src/plugins): a plugin is started
-- from a string, opens descriptors for objects such as a socket or the memory, and then reads and writes
-- attributes of them. Here the plugins are modelled as they are written in C, each with its state as a
-- record and one function per call. Objects of other machines are reached through the daemon: a client sends
-- its requests to a router, which passes each on to the servers of the objects, collects what they answer
-- and sends the client one answer. Its events are records, its channels numbers, and an event that is sent
-- is logged in the state.
--
-- Prelude        what all share: Tests (Boolean tests and `if`), Lists, Int (signed integers over the native
--                numbers), Bits (masks and shifts), Io (calls into the system as state passing), Doubles
--                (the arithmetic of `double`, a parameter), Acts (calls that the process may not survive),
--                Maps (std::map), Outcome: a call returns, stops at an assertion,
--                or has no defined behaviour (an access out of bounds, a block freed twice).
-- Types          src/pwr/pwrtypes.h: object types and attributes
-- Plugin         src/pwr/pwrdev.h: what a read gives its caller, and the vector reads (`readv`)
-- Cpuinfo        rapldev_identify and apmdev_identify
-- Rapl           src/plugins/pwr_rapldev.c. Msr: the macros MSR and MSR_BIT; Device: _pwr_rapldev_init;
--                Packages: pwr_rapldev_init and pwr_rapldev_open; Gather: rapldev_gather; Read:
--                pwr_rapldev_read, readv and time
-- Apm            src/plugins/pwr_apmdev.c. Fields: the macros and the two composed fields; Device: setpci,
--                apmdev_gather and the set-up of a node; Scan: pwr_apmdev_init; Read: the reads
-- Powercap       src/plugins/pwr_powercap.c. Paths: findSuffix, findNumZones and the file names; Zones:
--                powercap_dev_init; Energy: powercap_dev_open, read and readv; Release: powercap_dev_final
-- Counter        the loop of xtpmdev_read (and of cpudev_read in src/plugins/pwr_cpudev.c) over a small file
-- Xtpm           src/plugins/pwr_xtpmdev.c: opening, reading and writing, with the generation that is kept
-- Cpu            src/plugins/pwr_cpudev.c. Frequencies: cpudev_avail_freq; Device: the reads and writes
-- Meta           the tables of src/plugins/pwr_tx2mon.c and src/plugins/pwr_ipmi.c: initMeta and the calls
--                that read the table
-- Tx2mon         src/plugins/pwr_tx2mon.c. Region: the state, and the node and core of a number; Registry:
--                opening and closing; Read: readDev; Sampling: the thread (energy), step by step, and the
--                steps of the thread and the calls of the program as a list of events
-- Wire           src/pwr/serialize.h: the buffer of bytes, and the operators that write to it and read from it
-- Events         src/pwr/event.h, events.h, eventType.h and tools/pwrdaemon/router/routerEvent.h: the events and
--                their serialisation (Requests, Responses), and in Messages the functions that make an event
--                of a type and a buffer (ctx_allocEvent, allocReqEvent, allocServerEvent and the others)
-- Channel        src/pwr/tcpEventChannel.cc: sendEvent, getEvent and the connection of a client
-- Router         tools/pwrdaemon/router. Router itself: the state of class Router, the routes and sendEvent;
--                Requests: the events of a client; Answers: how the responses to a request are collected and
--                added up (commRespEvent.h); Events: the events of servers and routers, and closed channels
-- Client         src/pwr/distRequest.cc and status.h: the requests of a client and the wait for their answers;
--                Sending: what a communicator (src/pwr/distComm.cc) sends
-- Ipmi           src/plugins/pwr_ipmi.c: the read of the power of a node
-- Tests          concrete runs of all of these
--
-- The other modules below these hold the proofs. A model stands at the value of its C variables: registers
-- are their 64-bit patterns, `int` and `long long` are integers without a bound, and where the C standard
-- leaves a signed overflow undefined the models do not wrap. The files, registers and commands of the
-- system are parameters (the records `System` and `Files`), as are `sscanf` and `atof`.
--
-- Bounds and fuel: the loop over processors runs to MAX_CPU (512) and the loop over nodes to 8, as in C; the
-- loop of the counters is bounded by the 20 bytes of its array. Only findNumZones, which C leaves unbounded,
-- takes fuel, and any fuel above the number of files is enough. The attempts to connect are 61, as in the
-- source. The depth that the router's `process` takes counts router events one inside the other: 1 is
-- enough for an event that holds none.
--
-- Not modelled: output for debugging and for warnings; the failure of malloc; most releases of
-- descriptors and devices; calls that only return a code; the set-up of listening sockets; the
-- server of the daemon; the samples of an object, its parent and its children, and the framework's
-- contexts and configurations; the end of the thread of the TX2 plugin; the plugins not named above. A
-- buffer keeps its last byte first. The arrays of values and times that an object fills are functions of
-- an index. Memory is unbounded.
pub mod Prelude
pub mod Types
pub mod Objects
pub mod Plugin
pub mod Cpuinfo
pub mod Rapl
pub mod Apm
pub mod Meta
pub mod Powercap
pub mod Counter
pub mod Wire
pub mod Events
pub mod Channel
pub mod Router
pub mod Client
pub mod Xtpm
pub mod Cpu
pub mod Tx2mon
pub mod Ipmi
pub mod Tests
