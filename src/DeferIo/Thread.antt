-- ===== src/DeferIo/Thread.antt =====
-- The end of the thread: the queue runs empty, and every bio in it is sent on.
use veeamsnap.Prelude.{List}
use veeamsnap.DeferIo.{DeferIo}
