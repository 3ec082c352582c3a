-- ===== src/Netif.antt =====
-- netif.c: the branch `network/netif`, which lists the interfaces, five fields of each, the
-- neighbours and four measurements of each neighbour. A node carries an interface and its level
-- (4: the branch, 3: an interface, 2: a field, 1: a neighbour, 0: a measurement); which field,
-- neighbour and measurement it is stands in three global variables.
pub mod Names
pub mod Children
pub mod Values
unfoldable pub use dca.Netif.Names.*
unfoldable pub use dca.Netif.Children.*
unfoldable pub use dca.Netif.Values.*
