-- ===== src/PeerAcks/Keeps.antt =====
-- `ack_received`, the queues, the waiting lists and the cookies.
use bora.Prelude.{ℕ, ◌+◌, Bool, true, false, Bool-cases, Option-cases, inl, inr, ◌==◌}
use bora.Net.{SockaddrIn, SendData}
use bora.Net.Time.{Timeval}
use bora.Net.Messages.{need_ack, cookie_msg}
use bora.Codec.{AckReceived}
use bora.Queues.{Queues, send_data}
use bora.Queues.Fit.{Fits}
use bora.Nacks.{Ack, Nacks, remove_lost_acks}
use bora.Nacks.Fit.{NacksFit, remove_ooo_nacks-NacksFit, remove_lost_acks-NacksFit}
use bora.Nacks.Keeps.{resend_ooo_nacks_keeps}
use bora.Cookies.{AckStore}
use bora.Cookies.Fit.{CookiesFit, cookie_received-CookiesFit}
use bora.PeerAcks.{
  PeerAckStore, AckState, overtaken, receive_first, receive_next, notice_cookie, ack_received,
  find_peer_by_host, new_entry,
}

module _ (P : Queues → Type 0)
    (keeps : (d : SendData) (q : Queues) → Fits d → P q → P (send_data d q)) where
  pub record AckKept (st : AckState) : Type 0 where
    pub nacks : NacksFit st.nacks
    pub cookies : CookiesFit st.cookies
    pub queues : P st.queues

  overtaken_keeps :
      (retransmission : Bool) (ack : Ack) (cons : ℕ) (nacks : Nacks) (q : Queues)
      → NacksFit nacks
      → P q
      → NacksFit (overtaken retransmission ack cons nacks q).1
        × P (overtaken retransmission ack cons nacks q).2
  unfolding overtaken
  overtaken_keeps true ack cons nacks q fit p =
      resend_ooo_nacks_keeps P keeps ack (remove_lost_acks ack cons nacks).1 q
        (remove_lost_acks-NacksFit ack cons nacks fit) p
  overtaken_keeps false ack cons nacks q fit p = (remove_ooo_nacks-NacksFit ack nacks fit, p)

  receive_first_keeps :
      (entry : AckStore) (ack : Ack) (st : AckState)
      → AckKept st
      → AckKept (receive_first entry ack st)
  unfolding receive_first
  receive_first_keeps entry ack st k = record {
    nacks = remove_ooo_nacks-NacksFit ack st.nacks k.nacks;
    cookies = k.cookies;
    queues = k.queues;
  }

  receive_next_keeps :
      (retransmission : Bool) (peer : PeerAckStore) (entry : AckStore) (ack : Ack) (cons : ℕ)
      (st : AckState)
      → AckKept st
      → AckKept (receive_next retransmission peer entry ack cons st)
  unfolding receive_next
  receive_next_keeps retransmission peer entry ack cons st k =
      let (nacks, queues) =
        overtaken_keeps retransmission ack cons st.nacks st.queues k.nacks k.queues in
      record { nacks = nacks; cookies = k.cookies; queues = queues }

  notice_cookie_keeps :
      (entry : AckStore) (ack : Ack) (st : AckState)
      → AckKept st
      → AckKept (notice_cookie entry ack st)
  unfolding notice_cookie
  notice_cookie_keeps entry ack st k =
      elim (Bool-cases (ack.d.contents 0 == need_ack + cookie_msg)) [
        | inl cookie ↦ rw cookie (record {
          nacks = k.nacks;
          cookies = cookie_received-CookiesFit entry st.cookies k.cookies;
          queues = k.queues;
        })
        | inr other ↦ rw other k
      ]

  pub ack_received_keeps :
      (retransmission : Bool) (ack : Ack) (ack_r : AckReceived) (received : Timeval)
      (host : SockaddrIn) (st : AckState)
      → AckKept st
      → AckKept (ack_received retransmission ack ack_r received host st)
  unfolding ack_received
  ack_received_keeps retransmission ack ack_r received host st k =
      let entry =
        new_entry host ack (record { tv_sec = ack_r.sec; tv_usec = ack_r.usec }) received in
      elim (Option-cases (find_peer_by_host host st.acks.peers)) [
        | inl unknown ↦
            rw (unknown, ack_received)
              (notice_cookie_keeps entry ack (receive_first entry ack st)
                (receive_first_keeps entry ack st k))
        | inr (peer, known) ↦
            rw (known, ack_received)
              (notice_cookie_keeps entry ack
                (receive_next retransmission peer entry ack ack_r.cons st)
                (receive_next_keeps retransmission peer entry ack ack_r.cons st k))
      ]
