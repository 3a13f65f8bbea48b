-- ===== src/Netlink/Termination.antt =====
-- Every exchange of ktuctl-rs/src/netlink.rs ends, whatever the kernel sends.
use ktuctl_rs.Prelude.{ℕ, ◌≢◌, refl, arith, true, false, some, none, Option, Bool, if◌then◌else◌}
use ktuctl_rs.Bytes.{Endian, Bytes}
use ktuctl_rs.Outcome.{Outcome, ok, err, panic, blocked, stuck, Error}
use ktuctl_rs.World.{World, or_else, println, Net, ◌>>=◌, pure, lift}
use ktuctl_rs.Protocol.Layout.{Layout}
use ktuctl_rs.Netlink.Progress.{Runs, and_then-ne-stuck, recv_loop-ne-stuck}
use ktuctl_rs.Netlink.Socket.{NetlinkSocket, connect, send}
use ktuctl_rs.Netlink.Closed.{Closed}
use ktuctl_rs.Netlink.Closed.Exchanges.{
  send_struct-Holds, send_string-Holds, receive_struct-Holds, dump_structs-Holds,
  dump_strings-Holds,
}
use ktuctl_rs.Netlink.Exchange.{
  send_struct, send_string, receive_struct, dump_structs, dump_strings,
}

module _ {A : Type 0} where
  pub if_Runs : (b : Bool) (m k : Net A) → Runs m → Runs k → Runs (if b then m else k)
  if_Runs true m k hm hk = hm
  if_Runs false m k hm hk = hk

  pub lift-Runs : (o : Outcome A) → o ≢ stuck → Runs (lift o)
  lift-Runs o h w = h

  pub pure-Runs : (a : A) → Runs (pure a)
  pure-Runs a w e = cc

  pub bind-Runs :
      {B : Type 0} (m : Net B) (f : B → Net A) → Runs m → ((b : B) → Runs (f b)) → Runs (m >>= f)
  bind-Runs m f hm hf w = and_then-ne-stuck (m w) f (hm w) (λ b _. hf b)

  pub err-Runs : (x : Error) → Runs {A = A} (lift (err x))
  err-Runs x w e = cc

  pub lift_then-Runs :
      {B : Type 0} (o : Outcome B) (f : B → Net A)
      → o ≢ stuck
      → ((b : B) → Runs (f b))
      → Runs (lift o >>= f)
  lift_then-Runs o f ho hf = bind-Runs (lift o) f (λ w. ho) hf

  pub Option-Runs :
      {B : Type 0} (o : Option B) (m : Net A) (f : B → Net A)
      → Runs m
      → ((b : B) → Runs (f b))
      → Runs (elim o [ none ↦ m | some b ↦ f b ])
  Option-Runs none m f hm hf = hm
  Option-Runs (some b) m f hm hf = hf b

pub connect-Runs : Runs connect
unfolding connect
connect-Runs w e = ground arith

pub send-Runs : (sock : NetlinkSocket) (buf : Bytes) → Runs (send sock buf)
unfolding send
send-Runs sock buf w e = ground arith

pub or_else-ne-stuck :
    {A : Type 0} (r : Outcome A × World) (f : Error → Net A)
    → r.0 ≢ stuck
    → ((e : Error) → Runs (f e))
    → (or_else r f).0 ≢ stuck
or_else-ne-stuck (ok a, w) f h hf e = cc
or_else-ne-stuck (err x, w) f h hf e = hf x w e
or_else-ne-stuck (panic, w) f h hf e = cc
or_else-ne-stuck (blocked, w) f h hf e = cc
or_else-ne-stuck (stuck, w) f h hf e = h refl

pub println-Runs : (line : Bytes) → Runs (println line)
println-Runs line w e = cc

-- An action that ends may send any datagram.
abbrev pub runs_closed : (en : Endian) → Closed en
runs_closed en = record {
  Holds = λ m. Runs m;
  MaySend = λ d. Unit {0};
  done = λ a. pure-Runs a;
  bind = λ m f. bind-Runs m f;
  lifted = λ o h w. h;
  printed = println-Runs;
  handled = λ m f hm hf w. or_else-ne-stuck (m w) f (hm w) hf;
  connected = connect-Runs;
  sent = λ sock buf may. send-Runs sock buf;
  asks = λ seq pid name. tt;
  looped = λ seq h inbox s hr. recv_loop-ne-stuck en seq h hr inbox s;
}

module _ (en : Endian) where
  pub send_string-Runs :
      (cmd attr_type : ℕ) (text : Bytes) (ack : Bool) → Runs (send_string en cmd attr_type text ack)
  send_string-Runs cmd attr_type text ack =
      send_string-Holds (runs_closed en) cmd attr_type text ack (λ flags id seq pid. tt)

  module _ {T : Type 0} (l : Layout T) (cmd attr_type : ℕ) where
    pub send_struct-Runs :
        (value : T) (ack : Bool) → Runs (send_struct en l cmd attr_type value ack)
    send_struct-Runs value ack =
        send_struct-Holds (runs_closed en) l cmd attr_type value ack (λ flags id seq pid. tt)

    pub receive_struct-Runs :
        (in_data : Option Bytes) → Runs (receive_struct en l cmd attr_type in_data)
    receive_struct-Runs in_data =
        receive_struct-Holds (runs_closed en) l cmd attr_type in_data (λ flags id seq pid. tt)

    pub dump_structs-Runs :
        {S : Type 0} (handler : T → S → Net S) (s : S)
        → ((t : T) (s' : S) → Runs (handler t s'))
        → Runs (dump_structs en l cmd attr_type handler s)
    dump_structs-Runs handler s =
        dump_structs-Holds (runs_closed en) l cmd attr_type handler s (λ flags id seq pid. tt)

  -- Whatever the sockets do and whatever bytes arrive on them, `send_struct`, `send_string` and
  -- `receive_struct` end: with a value, an error, a panic or a wait for more, and never by running
  -- out of the fuel of the inner loop. So do `dump_structs` and `dump_strings`, if the handler that
  -- they call does.
  pub exchanges-Runs :
      {T S : Type 0} (l : Layout T) (cmd attr_type : ℕ) (value : T) (text : Bytes) (ack : Bool)
      (in_data : Option Bytes) (on_struct : T → S → Net S) (on_string : Bytes → S → Net S) (s : S)
      → ((t : T) (s' : S) → Runs (on_struct t s'))
      → ((x : Bytes) (s' : S) → Runs (on_string x s'))
      → Runs (send_struct en l cmd attr_type value ack)
        × Runs (send_string en cmd attr_type text ack)
        × Runs (receive_struct en l cmd attr_type in_data)
        × Runs (dump_structs en l cmd attr_type on_struct s)
        × Runs (dump_strings en cmd attr_type on_string s)
  exchanges-Runs l cmd attr_type value text ack in_data on_struct on_string s ht hx = (
    send_struct-Runs l cmd attr_type value ack,
    send_string-Runs cmd attr_type text ack,
    receive_struct-Runs l cmd attr_type in_data,
    dump_structs-Runs l cmd attr_type on_struct s ht,
    dump_strings-Holds (runs_closed en) cmd attr_type on_string s (λ flags id seq pid. tt) hx,
  )
