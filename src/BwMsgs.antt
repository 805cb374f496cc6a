-- ===== src/BwMsgs.antt =====
-- bw_msgs.c: the bandwidth messages that have been received, newest first, and the sending of one.
use bora.Prelude.{ℕ, List, [], ◌∷◌}
use bora.Net.{SockaddrIn, SendData}
use bora.Net.Time.{Timeval}
use bora.Codec.{encode_bw}
use bora.Queues.{Queues, send_data}

pub record BwMsg : Type 0 where
  pub bw : ℕ
  pub recv_time : Timeval
  pub addr : SockaddrIn

unfoldable pub bwmsg_received : BwMsg → List BwMsg → List BwMsg
bwmsg_received bw_message bwmlist = bw_message ∷ bwmlist

-- The messages, and the list that is left: an empty one.
unfoldable pub get_bwmsg_list : List BwMsg → List BwMsg × List BwMsg
get_bwmsg_list bwmlist = (bwmlist, [])

unfoldable pub send_bwmsg : SendData → SockaddrIn → ℕ → Queues → Queues
unfolding encode_bw
send_bwmsg stack host bw q = send_data (record (encode_bw stack bw) { to = host }) q
