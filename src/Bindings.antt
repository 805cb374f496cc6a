-- ===== src/Bindings.antt =====
-- bora.c, the functions that Python calls: the state of the whole library, what a call gives back, and
-- the checks that the calls begin with. A call is a function on the state; the interpreter's lock
-- makes it one step, but where it says `waits`. What PyArg_ParseTuple and PyInt_AsLong make of the
-- Python objects is an argument, `none` where they fail. Texts are lists of bytes.
pub mod Blocks
pub mod Messages
pub mod Session
pub mod Stats
pub mod Control
pub mod CookieCall
pub mod Guards
pub mod Journey
pub mod Lost
pub mod Ports
pub mod Content
pub mod Deleting
pub mod Bandwidths
pub mod Answers
pub mod Round
pub mod Counters
pub mod Safe
pub mod Transfer
use bora.Prelude.{ℕ, Bool, true, false, Option, none, some, List, u16, ◌||◌, if◌then◌else◌}
use bora.Prelude.Int.{ℤ, pos, ltb_ℤ, eqb_ℤ, to_u32}
use bora.Net.{SockaddrIn}
use bora.Queues.{Queues}
use bora.BlockCache.{Block}
use bora.Sender.{Sender, swap16}
use bora.PeerAcks.{PeerAcks}
use bora.Biter.{Biter}
use bora.RecvStats.{BwEstimation}
use bora.BwMsgs.{BwMsg}
use bora.Receiver.{InStats, Receiver}
use bora.Receiver.Buffers.{Buffers}
use bora.BwControl.{BwControl, Bpuller}

-- The static variables of bora.c, with those of the other files. The queues, the waiting datagrams
-- and the cookies are in `sender`. `sock` is 0 where no socket is open. `ack_list` says that the mutex
-- of that name is held between two calls; `ack_received` waits as long as it is.
pub record Library : Type 0 where
  pub sock : ℤ
  pub death : Bool
  pub bws_running : Bool
  pub kill_bora_threads : Bool
  pub cache : List Block
  pub sender : Sender
  pub acks : PeerAcks
  pub ack_list : Bool
  pub biter : Biter
  pub estimations : List BwEstimation
  pub bwmlist : List BwMsg
  pub stats_r : InStats
  pub buffers : Buffers
  pub bws : BwControl
  pub bpuller : Bpuller

-- The part that the receiving thread works on.
abbrev pub receiver_of : Library → Receiver
receiver_of lib = record {
  cache = lib.cache;
  ack_state = record {
    acks = lib.acks;
    nacks = lib.sender.nacks;
    cookies = lib.sender.cookies;
    queues = lib.sender.queues;
  };
  biter = lib.biter;
  estimations = lib.estimations;
  bwmlist = lib.bwmlist;
  stats_r = lib.stats_r;
}

abbrev pub with_receiver : Receiver → Library → Library
with_receiver r lib = record lib {
  cache = r.cache;
  sender = record (lib.sender) {
    nacks = r.ack_state.nacks;
    cookies = r.ack_state.cookies;
    queues = r.ack_state.queues;
  };
  acks = r.ack_state.acks;
  biter = r.biter;
  estimations = r.estimations;
  bwmlist = r.bwmlist;
  stats_r = r.stats_r;
}

abbrev pub with_queues : Queues → Library → Library
with_queues q lib = record lib { sender = record (lib.sender) { queues = q } }

-- The texts that PyErr_SetString is given; all are an AttributeError.
pub data Error : Type 0 where
  sock_not_open sock_already_open generators_not_running not_an_int : Error
  port_has_to_be cant_create_socket cant_bind wrong_arguments : Error
  not_in_presentation_format port_number_not_allowed message_too_long not_a_list : Error
  no_dict_objects bad_dict_entries port_is_not_int bw_is_not_int port_out_of_range : Error

-- What a call gives back: Py_RETURN_NONE, another value, an error or StopIteration; or it waits on a
-- semaphore.
pub data Reply {ℓ} (A : Type ℓ) : Type ℓ where
  none_value : Reply A
  value : A → Reply A
  raises : Error → Reply A
  stops : Reply A
  waits : Reply A

abbrev pub Call {ℓ} : Type ℓ → Type ℓ
Call A = Library → Reply A × Library

-- The rest of a function, unless it has returned.
abbrev pub and_then {ℓ κ} :
    {A : Type ℓ} {B : Type κ} → Reply A → Library → (A → Call B) → Reply B × Library
and_then (value a) lib f = f a lib
and_then none_value lib f = (none_value, lib)
and_then (raises e) lib f = (raises e, lib)
and_then stops lib f = (stops, lib)
and_then waits lib f = (waits, lib)

infixl 5 ◌>>=◌
abbrev pub ◌>>=◌ {ℓ κ} : {A : Type ℓ} {B : Type κ} → Call A → (A → Call B) → Call B
(m >>= f) lib = let (r, lib') = m lib in and_then r lib' f

infixl 5 ◌>>◌
abbrev pub ◌>>◌ {ℓ κ} : {A : Type ℓ} {B : Type κ} → Call A → Call B → Call B
m >> k = m >>= λ _. k

abbrev pub return {ℓ} : {A : Type ℓ} → Reply A → Call A
return r lib = (r, lib)

abbrev pub pure {ℓ} : {A : Type ℓ} → A → Call A
pure a lib = (value a, lib)

-- The value that is read, and the state that is written.
abbrev pub access {ℓ} : {A : Type ℓ} → (Library → A × Library) → Call A
access f lib = let (a, lib') = f lib in (value a, lib')

-- A test that ends the function or does nothing.
abbrev pub Check : Type 0
Check = Call {0} Unit

-- if (...) { PyErr_SetString(...); return NULL; }
abbrev pub raise_if : Bool → Error → Check
raise_if b e = return (if b then raises e else value tt)

-- A statement that changes the state.
abbrev pub change : (Library → Library) → Check
change f lib = (value tt, f lib)

-- if (death) { Py_RETURN_NONE; }
unfoldable pub none_if_dead : Check
none_if_dead lib = (if lib.death then none_value else value tt, lib)

-- if (!sock) { PyErr_SetString(PyExc_AttributeError, "Sock not open"); return NULL; }
unfoldable pub need_sock : Check
need_sock lib = (if eqb_ℤ lib.sock (pos 0) then raises sock_not_open else value tt, lib)

-- The test after PyArg_ParseTuple.
abbrev pub parsed {ℓ} : {A : Type ℓ} → Option A → Call A
parsed none = return (raises wrong_arguments)
parsed (some a) = return (value a)

-- What inet_pton makes of a text; `none` where it returns 0 or less.
unfoldable pub address : (List ℕ → Option ℕ) → List ℕ → Call ℕ
address inet_pton dest lib =
    (elim (inet_pton dest) [ none ↦ raises not_in_presentation_format | some a ↦ value a ], lib)

-- port_num>65535 || port_num<1
abbrev pub bad_port : ℤ → Bool
bad_port port_num = ltb_ℤ (pos 65535) port_num || ltb_ℤ port_num (pos 1)

-- AF_INET
abbrev pub af_inet : ℕ
af_inet = 2

-- An address whose padding is cleared.
abbrev pub socket_address : ℕ → ℤ → SockaddrIn
socket_address s_addr port_num = record {
  sin_family = af_inet;
  sin_port = swap16 (to_u32 port_num);
  sin_addr = s_addr;
  sin_zero = 0;
}

-- Py_RETURN_TRUE, or Py_RETURN_NONE.
abbrev pub true_or_none : Bool → Call Bool
true_or_none true = return (value true)
true_or_none false = return none_value

-- The conversion of an `int` to `uint16_t`.
abbrev pub to_u16 : ℤ → ℕ
to_u16 n = u16 (to_u32 n)
