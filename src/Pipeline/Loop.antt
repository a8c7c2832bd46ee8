-- ===== src/Pipeline/Loop.antt =====
-- The whole loop on a connection: event_loop of embkv/src/raft/peer/pipeline.cpp.
use embkv.Base.{◌≡◌, false, Option, none, some, List}
use embkv.Proto.{Bytes, Message}
use embkv.Queue.{ConcurrentQueue}
use embkv.Stream.{Connection}
use embkv.Pipeline.{MessageCodec, Pipeline}
use embkv.Pipeline.Serves.{Serves}

module _ {C S D : Type 0} (conn : Connection C) (codec : MessageCodec)
    (ser : ConcurrentQueue Bytes S) (deser : ConcurrentQueue Message D) where
  -- What holds of the pipeline behind the loop, which has to end.
  abbrev pub Ends : (Pipeline C S D → Type 0) → Option (Pipeline C S D) → Type 0
  Ends P none = ⊥
  Ends P (some q) = P q

  -- A pipeline behind its loop: the messages are queued, what was taken off the other queue was written
  -- to the stream before it was closed, and the pipeline can be run again.
  pub record Served (p : Pipeline C S D) (ms : List Message) (q : Pipeline C S D) : Type 0 where
    pub last : C
    pub serves : Serves conn codec ser deser p ms last q
    pub closed : q.stream ≡ conn.close last
    pub idle : q.is_running ≡ false
