-- ===== src/Cec.antt =====
-- src/cec_controls.c: camera controls that arrive over HDMI-CEC. `Queue` is the message queue
-- between the receiving thread and the control loop, `Receive` the receiving thread, `Apply` the
-- setting of a V4L2 control, `Poll` the dispatch of queued messages, and `Adapter` the opening and
-- closing of the CEC adapter.
pub mod Queue
pub mod Adapter
pub mod Poll
pub mod Receive
pub mod Apply
mod Tests
