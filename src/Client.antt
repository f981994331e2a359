-- ===== src/Client.antt =====
-- src/client.c: what a client holds. Each child models one group of fields of `struct client`
-- (src/client.h) with the functions on it. The locks of quick-event are held across each function
-- or its critical section, so each is one step here.
pub mod Callbacks
pub mod Subs
pub mod Data
