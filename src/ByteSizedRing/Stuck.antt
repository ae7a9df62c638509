-- ===== src/ByteSizedRing/Stuck.antt =====
-- What the uncounted buffers of a burst do to the calls that come after it.
use libmoon.RteRing.{RteRing}
