-- ===== src/Net.antt =====
-- messages.h, bora_util.c and the structures that every other file passes around: the flags of a
-- datagram, `struct timeval`, `struct sockaddr_in` and `SendData`.
pub mod Messages
pub mod Time
use bora.Prelude.{ℕ, Bool, Array, ◌==◌, ◌&&◌}

-- `struct sockaddr_in`, its padding read as a number, since memcmp compares it too.
pub record SockaddrIn : Type 0 where
  pub sin_family : ℕ
  pub sin_port : ℕ
  pub sin_addr : ℕ
  pub sin_zero : ℕ

-- memcmp(a, b, sizeof(struct sockaddr_in)) == 0
abbrev pub addr_eq : SockaddrIn → SockaddrIn → Bool
addr_eq a b =
    a.sin_family == b.sin_family
    && a.sin_port == b.sin_port
    && a.sin_addr == b.sin_addr
    && a.sin_zero == b.sin_zero

-- `SendData`: an array of 1500 bytes, of which `length` are in use.
pub record SendData : Type 0 where
  pub contents : Array ℕ
  pub length : ℕ
  pub to : SockaddrIn

abbrev pub mtu : ℕ
mtu = 1400

abbrev pub send_data_size : ℕ
send_data_size = 1500
