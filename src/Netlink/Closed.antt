-- ===== src/Netlink/Closed.antt =====
-- Properties of actions that the ways to put actions together keep, and the exchanges of
-- ktuctl-rs/src/netlink.rs, which are put together from them.
pub mod Exchanges
use ktuctl_rs.Prelude.{
  ℕ, ◌≢◌, List, ◌∷◌, [], ◌++◌, Option, Bool, true, false, none, some, if◌then◌else◌,
}
use ktuctl_rs.Bytes.{Endian, Bytes}
use ktuctl_rs.Outcome.{Outcome, err, stuck, Error}
use ktuctl_rs.World.{World, Net, ◌>>=◌, ◌>>◌, pure, lift, println, or_else}
use ktuctl_rs.Protocol.Constants.{
  genl_id_ctrl, nlm_f_request, ctrl_cmd_getfamily, ctrl_attr_family_name,
}
use ktuctl_rs.Netlink.Message.{NlmsghdrRaw, build_packet_genl_msg}
use ktuctl_rs.Netlink.Loop.{Handler, Inbox, recv_loop}
use ktuctl_rs.Netlink.Socket.{NetlinkSocket, connect, send}

-- `MaySend` are the datagrams that an action with the property may send; one that asks for the number
-- of a family is among them.
pub record Closed (en : Endian) : Type 1 where
  pub Holds : {A : Type 0} → Net A → Type 0
  pub MaySend : Bytes → Type 0
  pub done : {A : Type 0} (a : A) → Holds (pure a)
  pub bind :
      {A B : Type 0} (m : Net A) (f : A → Net B)
      → Holds m
      → ((a : A) → Holds (f a))
      → Holds (m >>= f)
  pub lifted : {A : Type 0} (o : Outcome A) → o ≢ stuck → Holds (lift o)
  pub printed : (line : Bytes) → Holds (println line)
  pub handled :
      {A : Type 0} (m : Net A) (f : Error → Net A)
      → Holds m
      → ((e : Error) → Holds (f e))
      → Holds (λ w. or_else (m w) f)
  pub connected : Holds connect
  pub sent : (sock : NetlinkSocket) (buf : Bytes) → MaySend buf → Holds (send sock buf)
  pub asks :
      (seq pid : ℕ) (name : Bytes)
      → MaySend (
          build_packet_genl_msg en genl_id_ctrl nlm_f_request seq pid ctrl_cmd_getfamily 1
            ((ctrl_attr_family_name, name) ∷ []))
  pub looped :
      {S A : Type 0} (seq : ℕ) (h : Handler S A) (inbox : Inbox) (s : S)
      → ((nlh : NlmsghdrRaw) (rx : Bytes) (off msg_end : ℕ) (t : S)
          → Holds (h nlh rx off msg_end t))
      → Holds (recv_loop en seq h inbox s)

module _ {en : Endian} (p : Closed en) where
  module _ {A : Type 0} where
    pub if_Holds : (b : Bool) (m k : Net A) → p.Holds m → p.Holds k → p.Holds (if b then m else k)
    if_Holds true m k hm hk = hm
    if_Holds false m k hm hk = hk

    pub Option-Holds :
        {B : Type 0} (o : Option B) (m : Net A) (f : B → Net A)
        → p.Holds m
        → ((b : B) → p.Holds (f b))
        → p.Holds (elim o [ none ↦ m | some b ↦ f b ])
    Option-Holds none m f hm hf = hm
    Option-Holds (some b) m f hm hf = hf b

    pub failed : (x : Error) → p.Holds {A = A} (lift (err x))
    failed x = p.lifted (err x) (λ e. cc)

    pub lift_then-Holds :
        {B : Type 0} (o : Outcome B) (f : B → Net A)
        → o ≢ stuck
        → ((b : B) → p.Holds (f b))
        → p.Holds (lift o >>= f)
    lift_then-Holds o f ho hf = p.bind (lift o) f (p.lifted o ho) hf

    pub println_then-Holds :
        (line : Bytes) (k : Net A) → p.Holds k → p.Holds (println line >>= λ _. k)
    println_then-Holds line k hk = p.bind (println line) (λ _. k) (p.printed line) (λ _. hk)
