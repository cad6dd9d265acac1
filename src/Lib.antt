-- ===== src/Lib.antt =====
-- Fabric OS: the message bus of the kernel, what it signs and logs, and the governance that gates it.
--
-- A process hands a header and a payload to `bus::send` of kernel/src/bus/mod.rs. kernel/src/governance
-- decides first whether the message may pass at all; kernel/src/capability then checks the token that
-- it names, if any, and whose it is; kernel/src/bus/router.rs checks it, keeps its payload in the arena,
-- signs the header and the payload, queues the envelope in the receiver's inbox, copies it to the
-- monitors and appends an entry to the audit log. kernel/src/handle gives each process handles for its
-- capabilities.
--
-- Files, and the code that they model:
--   Wire: fabric_types/src/message.rs, capability.rs and audit.rs. Header, Token, Audit and Perm hold
--     the types and their bytes, Encoding what the bytes determine.
--   Capability/HmacEngine: kernel/src/capability/hmac_engine.rs. The key is an argument.
--   Capability/Slab: kernel/src/capability/slab.rs, a hash map of 16384 slots. Cyclic, Probing,
--     Shifting and Removal are about its loops, Occupied and Keys about its length; Laws, Deletion and
--     Reuse see it as a finite map. Its loops run on fuel, the number of slots, which always is enough.
--   Capability/Nonce, Budget, Store: the file of the same name in kernel/src/capability. Store/Checks
--     has the checks of `validate`, Store/Links the child lists and `revoke`. Store/Forest, Unlink,
--     Detach, Severing and Growth are about the child lists that run through the tokens, Revocation
--     and Revoke about `revoke`, Issue and Delegate about new tokens, Validate, Verdict and Replay
--     about `validate`, Authority about rights, and Operations, Steps and Reachable about all states
--     that operations lead to. The walks have an id as fuel, since a list goes to smaller ids, and the
--     loop of `revoke` the number of tokens, one of which it removes in each turn.
--   Bus/Arena, Queue, Sequence, Monitor, Audit: the file of the same name in kernel/src/bus, one
--     record for the struct and one function for each method, under its name.
--   Bus/Router, Bus/Router/Send: kernel/src/bus/router.rs; `send` is cut at the steps that its comment
--     counts. Router/Mail sees the bus as one queue for each process; Router/Steps is the relation of
--     one operation, and Reachable what holds in all states that operations lead to.
--   Bus/Entry: kernel/src/bus/mod.rs, over what the three locks guard. Accept is about which messages
--     `send` accepts, Rights about the capability that an accepted message names.
--   Governance: kernel/src/governance. Types, Rules, Safety, Acs, BreakGlass, Constitution and Engine
--     are rules.rs, safety.rs, acs.rs, break_glass.rs, constitution.rs and mod.rs, over the types of
--     fabric_types/src/governance.rs. Engine/Genesis is about what the genesis rules decide,
--     Engine/Bypass about break-glass, Engine/Lockdown about what opens Lockdown.
--   Sync: the lock levels of kernel/src/sync/mod.rs and their tracking in a debug build.
--   Network/Checksum, Ip, Ethernet, Udp: the file of the same name in kernel/src/network.
--   Handle: kernel/src/handle/table.rs, and HandleId of fabric_types/src/process.rs.
--   Crypto: the crates sha3 and hmac, as parameters with what they document.
--   Base: machine words, fixed-size arrays, ordered maps, bytes and tests. Tests: concrete inputs.
--
-- Numbers are natural numbers; the additions of the source wrap at the width of their type, as in a
-- build with the release profile. An array of options is a function from its index, of which the
-- indices below its size are used; a loop over an array is recursion on the number of rounds, so that
-- every loop ends; where the source has no bound, the list of files names the fuel. `&mut self` is a
-- state that is passed on.
-- A panic is a value: `panic` of a result, or `none` where the function's comment says so.
-- Each call is one step: the locks, and interleavings inside a call, are not modelled.
--
-- Not modelled: processes, files, sockets, TCP, TLS and the other protocols of the network, the
-- council, drivers, display, virtualisation, and the stress gates.
-- `evaluate_policy` takes what it reads from the process table, the capability store and the council
-- as arguments; Bus/Entry gives it what the capability store says.
pub mod Base
pub mod Crypto
pub mod Wire
pub mod Capability
pub mod Bus
pub mod Governance
pub mod Handle
pub mod Network
pub mod Sync
pub mod Tests
