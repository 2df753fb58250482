-- ===== src/Util.antt =====
-- util/: the helpers on strings and numbers.
pub mod Mxc
pub mod RoundTrip
pub mod Parse
