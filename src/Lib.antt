-- ===== src/Lib.antt =====
-- Endorium Nexus: a shallow model of the parts of the C++ backend (backend/) that decide, parse and
-- print, and the theorems that make them correct.
--
-- Conventions. `std::string` and `std::vector<std::uint8_t>` are lists of numbers below 256. A
-- number of a fixed width is a number of Prim.Native.Nat with its wrap-around written out. A routine
-- over untrusted bytes returns an `Outcome`: `ok`, `reject` (the C++ `return false` or an empty
-- optional), or `fault`, which stands for a read outside a vector or a loop that outruns the rounds
-- it was given. An offset passed by reference is returned with the result.
--
-- Prelude: lists, tests, texts and `Outcome` with the rules of `Ensures`.
-- Dns: backend/libs/protocol/src/dns.cpp and its header. Wire reads and writes names and numbers;
--   Update is dynamic updates; Answer is queries over UDP and TCP; Zones is the domain's own zone and
--   its merge. Wire, Update and Answer have a child Safety over all packets. Addresses and Owners
--   follow an update's record to the answers that serve it. Runs holds tests.
--   Rounds: the loop of `read_dns_name` gets one round more than the packet has bytes, for each of at
--   most nine nested pointers; a TXT loop gets as many rounds as its data has bytes.
-- Maps: std::map, which Ldap and Supervisor use.
-- Ldap: backend/libs/protocol/src/ldap.cpp. Ber is the elements, the header and the controls of
--   a message (Safety over all messages, RoundTrip, Messages and Header for written ones); Names
--   is distinguished names; Objects is the objects and the membership in groups, Values the
--   values of an attribute and Sids those that are bytes; Members is the walk over nested groups
--   (Seen and Chain: what it decides); Matches is the assertions (Fragments and Substring: what
--   a substring assertion means); Filter is filter_matches_object and Requests the reading of
--   searches, comparisons and binds; Controls is the controls; Entries is the entry of an
--   object; Search answers searches and comparisons; Session answers binds, Writes is what
--   stands in front of the handler of writes and Changes reads their requests; Server is one
--   message (Server.Safety: it is answered, and who may write); Secrecy is about password
--   hashes. The session and the directory are passed on from message to message. A loop over a
--   node's content gets one round more than it has bytes; a filter gets as many levels, and each
--   level is shorter than the one around it; the walk over groups gets two rounds more than
--   there are objects, and enters each once. Domain is the domain's own entries and Locator the
--   answer to a locator's ping. The handler of writes, the verifier of passwords and the check
--   of a ticket are arguments.
-- Smb: backend/libs/protocol/src/smb.cpp. Requests is the fields of a request, Pipes the bytes that
--   pass through named pipes (Streams: nothing is lost, and reads empty a pipe), Overlay the contents
--   of the files that clients write. The answer of a pipe's RPC server is an argument; memory is
--   taken to be as large as a vector may get, and the exception of a longer one is `reject`. Messages are not modelled.
-- Vcs: backend/libs/vcs. Names is the checks of repository.cpp; Cgi is git's reply as an HTTP response
--   and Http the checks in front of git (git_http.cpp), with the repositories' database, files and
--   processes as a record of operations, RepositoryService.
-- Jobs: backend/libs/jobs/src/queue.cpp, the queue of jobs.
-- Dhcp: backend/libs/protocol/src/dhcp.cpp. Leases is the choice of a lease, Choice what is chosen. The
--   loop over the candidates gets one round more than the range has addresses.
-- Supervisor: backend/apps/services/main.cpp. Services is the loop, with PostgreSQL,
--   processes, files and the clock as a record of operations, System; Changes is one service's turn,
--   Invariants what it keeps, Children what fork and waitpid do to the supervisor's child processes,
--   Tracking how these go with the entries, Endings services that end, Rounds every state of the loop. Reasons, which are only
--   logged, are left out.
-- Totp: backend/libs/security/src/totp.cpp. Codes is base32 and the codes, with HMAC-SHA1 as a parameter;
--   Window is which codes are accepted. Times are whole seconds; the present one is not before 1970,
--   the steps of a window may be. The inner loop of base32 gets three rounds, for at most twelve bits in hand.
--
-- Not modelled: the messages of SMB, the Kerberos, RPC and package protocols, cryptography, PostgreSQL, the REST API
-- and its state, the event loop and the programs' sockets.
pub mod Prelude
pub mod Dhcp
pub mod Dns
pub mod Jobs
pub mod Ldap
pub mod Maps
pub mod Smb
pub mod Supervisor
pub mod Totp
pub mod Vcs
