-- ===== src/Queue.antt =====
-- src/libgilberta/queue.h and queue.c: the queue over raw bytes (Bytes), the same queue seen as an
-- array of elements (Slots), and the bounded FIFO that both implement (Fifo).
pub mod Fifo
pub mod Window
pub mod Bytes
pub mod Slots
