-- ===== src/Xpio/Options/RoundTrip.antt =====
-- luau/xpio_c.c: `xpsocket_getsockopt` gives back what `xpsocket_setsockopt` has set.
