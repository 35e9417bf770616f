-- ===== src/Raft.antt =====
-- pkg/reef/raft: the replicated state machine behind the federation of servers. The log, elections and
-- transport are the library go.etcd.io/raft; what it commits is a list of entries here. JSON is read
-- by encoding/json: the decoders that a state machine uses are an argument, `Json`, and `none` is a
-- text that they refuse.
pub mod Commands
pub mod Fsm
pub mod Log
pub mod Leader
pub mod Pool
