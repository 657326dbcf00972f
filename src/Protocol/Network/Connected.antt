-- ===== src/Protocol/Network/Connected.antt =====
-- A connection from its handshake to its messages (src/libgilberta/gilberta.c at both ends).
use libgilberta.Os.{Os}
use libgilberta.Os.Benign.{Benign}
